-- ===== src/Docker/LogReader.antt =====
-- `dockerLogReader`: the demultiplexer of a container's log.
pub mod Termination
pub mod Frames
pub mod Torn
use px_installer.Base.{
  ℕ, zero, suc, ◌+◌, ◌-◌, ◌*◌, ◌%◌, ◌^◌, Bool, true, false, not, Option, none, some, List, [], ◌∷◌,
  ◌++◌, if◌then◌else◌, length, take, drop, Bytes, lit, ltb, leb, ◌==◌,
}
use px_installer.Base.Result.{Result, ok, err}

-- One `Read` into a buffer of the given size: bytes, the end of the log, or an error. A reader is
-- the pieces that are still to arrive; a piece longer than the buffer is split.
pub data Read : Type 0 where
  got : Bytes → List (Result Bytes Bytes) → Read
  eof : Read
  broken : Bytes → Read

unfoldable pub read : ℕ → List (Result Bytes Bytes) → Read
read n [] = eof
read n (err message ∷ pieces) = broken message
read n (ok piece ∷ pieces) =
    if leb (length piece) n
    then got piece pieces
    else got (take n piece) (ok (drop n piece) ∷ pieces)

-- The bytes written to each writer, and how the loop ended.
pub data LogEnd : Type 0 where
  all_read : Bytes → LogEnd
  failed : Bytes → Bytes → LogEnd
  -- a slice out of range, a panic of the process
  panicked : Bytes → LogEnd
  -- the loop had no rounds left
  no_fuel : Bytes → LogEnd

abbrev pub uint32 : ℕ → ℕ
uint32 n = n % 2 ^ 32

-- `binary.BigEndian.Uint32`
unfoldable pub big_endian : Bytes → ℕ
big_endian (a ∷ b ∷ c ∷ d ∷ _) = a * 2 ^ 24 + b * 2 ^ 16 + c * 2 ^ 8 + d
big_endian _ = 0

unfoldable pub frame_end : Bytes → ℕ
frame_end hdr = uint32 (big_endian (drop 4 hdr) + 2)

-- `hdr[0]` is 1 for the standard output.
unfoldable pub tag : Bytes → Bytes
tag [] = lit "E "
tag (c ∷ hdr) = if c == 1 then lit "> " else lit "E "

-- What is left of a reader, as a bound on the rounds.
unfoldable pub pieces_size : List (Result Bytes Bytes) → ℕ
pieces_size [] = 0
pieces_size (err message ∷ pieces) = suc (pieces_size pieces)
pieces_size (ok piece ∷ pieces) = suc (length piece + pieces_size pieces)

module _ (next : List (Result Bytes Bytes) → Bytes → LogEnd) where
  -- With the header, once a frame's data were read.
  unfoldable pub after_data : Bytes → Read → Bytes → LogEnd
  after_data hdr eof out = failed (lit "Could not read docker log data: EOF") out
  after_data hdr (broken message) out =
      failed (lit "Could not read docker log data: " ++ message) out
  after_data hdr (got frame rest) out = next rest (out ++ (tag hdr ++ frame))

  -- `buf[2:frameLenAndOffs]` is out of range below 2.
  unfoldable pub with_header : Bytes → List (Result Bytes Bytes) → Bytes → LogEnd
  with_header hdr rest out =
      if ltb (frame_end hdr) 2
      then panicked out
      else after_data hdr (read (frame_end hdr - 2) rest) out

  unfoldable pub after_header : Read → Bytes → LogEnd
  after_header eof out = all_read out
  after_header (broken message) out =
      failed (lit "Could not read docker log header: " ++ message) out
  after_header (got hdr rest) out =
      if length hdr == 8 then with_header hdr rest out else failed (lit "Short write (hdr)") out

-- The loop, with `out` written so far. Each round takes what one `Read` gives of a header, and
-- then what one `Read` gives of the frame.
unfoldable pub log_loop : ℕ → List (Result Bytes Bytes) → Bytes → LogEnd
log_loop zero pieces out = no_fuel out
log_loop (suc fuel) pieces out = after_header (log_loop fuel) (read 8 pieces) out

unfoldable pub docker_log_reader : List (Result Bytes Bytes) → LogEnd
unfolding log_loop after_header with_header after_data read frame_end big_endian tag pieces_size
docker_log_reader pieces = log_loop (suc (pieces_size pieces)) pieces []
