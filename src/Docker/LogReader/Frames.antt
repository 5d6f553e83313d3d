-- ===== src/Docker/LogReader/Frames.antt =====
-- The log reader on logs in Docker's format.
use px_installer.Base.{
  ℕ, zero, suc, ◌+◌, ◌-◌, ◌/◌, ◌%◌, ◌^◌, ◌≤◌, ◌<◌, List, [], ◌∷◌, ◌++◌, ◌≡◌, refl, ◌∙◌, arith,
  if◌then◌else◌, length, drop, All, Bytes, lit, ◌==◌, append_assoc, append-nil,
}
use px_installer.Base.Result.{Result, ok}
use px_installer.Docker.LogReader.{
  got, read, LogEnd, all_read, panicked, big_endian, frame_end, tag, pieces_size, after_data,
  with_header, after_header, log_loop, docker_log_reader,
}
use px_installer.Docker.LogReader.Termination.{docker_log_reader_lem}

-- A frame of the log: its stream (1 is the standard output) and what was written there.
pub record Frame : Type 0 where
  pub stream : ℕ
  pub payload : Bytes

abbrev pub header_of : Frame → Bytes
header_of f =
    let n = length f.payload in
    f.stream
    ∷ 0
    ∷ 0
    ∷ 0
    ∷ (n / 2 ^ 24 % 256)
    ∷ (n / 2 ^ 16 % 256)
    ∷ (n / 2 ^ 8 % 256)
    ∷ (n % 256)
    ∷ []

-- The header of each frame arrives whole by one read, and its payload by the next.
unfoldable pub pieces_of : List Frame → List (Result Bytes Bytes)
pieces_of [] = []
pieces_of (f ∷ frames) = ok (header_of f) ∷ ok f.payload ∷ pieces_of frames

-- What a line for each frame should read.
unfoldable pub rendered : List Frame → Bytes
rendered [] = []
rendered (f ∷ frames) =
    (if f.stream == 1 then lit "> " else lit "E ") ++ (f.payload ++ rendered frames)

pub frame_end-header_of :
    (f : Frame) → length f.payload + 2 < 2 ^ 32 → frame_end (header_of f) ≡ length f.payload + 2
unfolding frame_end big_endian
frame_end-header_of f h = omega arith

pub read_whole :
    (n : ℕ) (b : Bytes) (pieces : List (Result Bytes Bytes))
    → length b ≤ n
    → read n (ok b ∷ pieces) ≡ got b pieces
unfolding read
read_whole n b pieces h = ground arith

with_header-frame :
    (next : List (Result Bytes Bytes) → Bytes → LogEnd) (f : Frame)
    (pieces : List (Result Bytes Bytes)) (out : Bytes)
    → length f.payload + 2 < 2 ^ 32
    → with_header next (header_of f) (ok f.payload ∷ pieces) out
      ≡ next pieces (out ++ ((if f.stream == 1 then lit "> " else lit "E ") ++ f.payload))
unfolding with_header after_data tag
with_header-frame next f pieces out h =
    let e = frame_end-header_of f h in
    rw (e, with_header)
      (let r : read (length f.payload + 2 - 2) (ok f.payload ∷ pieces) ≡ got f.payload pieces =
          read_whole (length f.payload + 2 - 2) f.payload pieces (omega arith) in
        rw r (ground arith))

pub log_loop-frame :
    (fuel : ℕ) (f : Frame) (pieces : List (Result Bytes Bytes)) (out : Bytes)
    → length f.payload + 2 < 2 ^ 32
    → log_loop (suc fuel) (ok (header_of f) ∷ ok f.payload ∷ pieces) out
      ≡ log_loop fuel pieces (out ++ ((if f.stream == 1 then lit "> " else lit "E ") ++ f.payload))
unfolding log_loop after_header
log_loop-frame fuel f pieces out h =
    rw (read_whole 8 (header_of f) (ok f.payload ∷ pieces) (omega arith), after_header)
      (with_header-frame (log_loop fuel) f pieces out h)

log_loop-frames :
    (fuel : ℕ) (frames : List Frame) (out : Bytes)
    → length frames < fuel
    → All (λ f. length f.payload + 2 < 2 ^ 32) frames
    → log_loop fuel (pieces_of frames) out ≡ all_read (out ++ rendered frames)
unfolding pieces_of rendered
log_loop-frames zero frames out l a = absurd (omega arith)
log_loop-frames (suc fuel) [] out l a = rw append-nil (unfold log_loop after_header read in refl)
log_loop-frames (suc fuel) (f ∷ frames) out l a =
    log_loop-frame fuel f (pieces_of frames) out a.0
    ∙ log_loop-frames fuel frames _ (omega arith) a.1
    ∙ simp append_assoc

length-pieces_of : (frames : List Frame) → length frames ≤ pieces_size (pieces_of frames)
unfolding pieces_of pieces_size
length-pieces_of [] = omega arith
length-pieces_of (f ∷ frames) = omega (arith, length-pieces_of frames)

-- A log of frames in Docker's format, each shorter than 2^32 - 2 bytes, of which one read gives
-- the whole header and the next one the whole payload, is read to its end: each payload in order,
-- behind "> " for the standard output and "E " for any other stream.
pub docker_log_reader-frames :
    (frames : List Frame)
    → All (λ f. length f.payload + 2 < 2 ^ 32) frames
    → docker_log_reader (pieces_of frames) ≡ all_read (rendered frames)
docker_log_reader-frames frames a =
    docker_log_reader_lem (pieces_of frames)
    ∙ log_loop-frames _ frames [] (omega (arith, length-pieces_of frames)) a

frame_end-overflow :
    (hdr : Bytes)
    → 2 ^ 32 ≤ big_endian (drop 4 hdr) + 2
    → big_endian (drop 4 hdr) < 2 ^ 32
    → frame_end hdr < 2
unfolding frame_end
frame_end-overflow hdr low high = omega arith

after_header-overflow :
    (next : List (Result Bytes Bytes) → Bytes → LogEnd) (hdr : Bytes)
    (pieces : List (Result Bytes Bytes)) (out : Bytes)
    → length hdr ≡ 8
    → frame_end hdr < 2
    → after_header next (got hdr pieces) out ≡ panicked out
unfolding after_header with_header
after_header-overflow next hdr pieces out l small = ground arith

log_loop-overflow :
    (fuel : ℕ) (frames : List Frame) (hdr : Bytes) (pieces : List (Result Bytes Bytes))
    (out : Bytes)
    → length frames < fuel
    → All (λ f. length f.payload + 2 < 2 ^ 32) frames
    → length hdr ≡ 8
    → frame_end hdr < 2
    → log_loop fuel (pieces_of frames ++ (ok hdr ∷ pieces)) out ≡ panicked (out ++ rendered frames)
unfolding pieces_of rendered
log_loop-overflow zero frames hdr pieces out l a e s = absurd (omega arith)
log_loop-overflow (suc fuel) [] hdr pieces out l a e s = rw append-nil (
    unfold log_loop in
    (rw (read_whole 8 hdr pieces (omega arith)) (after_header-overflow _ hdr pieces out e s)))
log_loop-overflow (suc fuel) (f ∷ frames) hdr pieces out l a e s =
    log_loop-frame fuel f (pieces_of frames ++ (ok hdr ∷ pieces)) out a.0
    ∙ log_loop-overflow fuel frames hdr pieces _ (omega arith) a.1 e s
    ∙ simp append_assoc

length-pieces_of_append :
    (frames : List Frame) (pieces : List (Result Bytes Bytes))
    → length frames ≤ pieces_size (pieces_of frames ++ pieces)
unfolding pieces_of pieces_size
length-pieces_of_append [] pieces = omega arith
length-pieces_of_append (f ∷ frames) pieces = omega (arith, length-pieces_of_append frames pieces)

-- Behind any well-formed frames, a header of 8 bytes with a frame length of 2^32 - 2 or 2^32 - 1
-- wraps around when 2 is added, and the process panics with the frames so far written.
pub docker_log_reader-overflow :
    (frames : List Frame) (hdr : Bytes) (pieces : List (Result Bytes Bytes))
    → All (λ f. length f.payload + 2 < 2 ^ 32) frames
    → length hdr ≡ 8
    → 2 ^ 32 ≤ big_endian (drop 4 hdr) + 2
    → big_endian (drop 4 hdr) < 2 ^ 32
    → docker_log_reader (pieces_of frames ++ (ok hdr ∷ pieces)) ≡ panicked (rendered frames)
docker_log_reader-overflow frames hdr pieces a l low high =
    docker_log_reader_lem _
    ∙ log_loop-overflow _ frames hdr pieces []
        (omega (arith, length-pieces_of_append frames (ok hdr ∷ pieces))) a l
        (frame_end-overflow hdr low high)
