-- ===== src/Docker/LogReader/Termination.antt =====
-- The log reader always ends.
use px_installer.Base.{
  ℕ, zero, suc, ◌+◌, ◌-◌, ◌≤◌, ◌<◌, Bool, true, false, List, [], ◌∷◌, ◌≡◌, ◌≢◌, refl, arith, length,
  drop, Bytes, leb, Bool-cases, inl, inr,
}
use px_installer.Base.Result.{Result, ok, err}
use px_installer.Docker.LogReader.{
  Read, got, eof, broken, read, LogEnd, no_fuel, frame_end, pieces_size, after_data, with_header,
  after_header, log_loop, docker_log_reader,
}

-- A read takes nothing back, and a read into a nonempty buffer makes progress.
abbrev Shrinks : ℕ → List (Result Bytes Bytes) → Read → Type 0
Shrinks n pieces (got bytes rest) =
    (pieces_size rest ≤ pieces_size pieces) × (0 < n → pieces_size rest < pieces_size pieces)
Shrinks n pieces eof = Unit
Shrinks n pieces (broken m) = Unit

length-drop : (n : ℕ) (xs : Bytes) → n < length xs → length (drop n xs) + n ≡ length xs
length-drop zero xs h = omega arith
length-drop (suc n) [] h = absurd (omega arith)
length-drop (suc n) (x ∷ xs) h = omega (arith, length-drop n xs (omega arith))

read-Shrinks : (n : ℕ) (pieces : List (Result Bytes Bytes)) → Shrinks n pieces (read n pieces)
unfolding read pieces_size
read-Shrinks n [] = tt
read-Shrinks n (err m ∷ pieces) = tt
read-Shrinks n (ok piece ∷ pieces) = elim (Bool-cases (leb (length piece) n)) [
  | inl fits ↦ rw fits (omega arith, λ h. omega arith)
  | inr long ↦ rw long (
      let l : n < length piece = ground arith in
      let e : length (drop n piece) + n ≡ length piece = length-drop n piece l in
      (omega arith, λ h. omega arith))
]

abbrev is_no_fuel : LogEnd → Bool
is_no_fuel (no_fuel out) = true
is_no_fuel _ = false

after_data-ends :
    (next : List (Result Bytes Bytes) → Bytes → LogEnd) (n k : ℕ)
    (pieces : List (Result Bytes Bytes)) (hdr : Bytes) (r : Read) (out : Bytes)
    → Shrinks n pieces r
    → pieces_size pieces < k
    → ((rest : List (Result Bytes Bytes)) (o : Bytes)
        → pieces_size rest < k
        → is_no_fuel (next rest o) ≡ false)
    → is_no_fuel (after_data next hdr r out) ≡ false
unfolding after_data
after_data-ends next n k pieces hdr (got b rest) out s h ends = ends rest _ (omega arith)
after_data-ends next n k pieces hdr eof out s h ends = refl
after_data-ends next n k pieces hdr (broken m) out s h ends = refl

after_header-ends :
    (next : List (Result Bytes Bytes) → Bytes → LogEnd) (k : ℕ) (pieces : List (Result Bytes Bytes))
    (r : Read) (out : Bytes)
    → Shrinks 8 pieces r
    → pieces_size pieces < suc k
    → ((rest : List (Result Bytes Bytes)) (o : Bytes)
        → pieces_size rest < k
        → is_no_fuel (next rest o) ≡ false)
    → is_no_fuel (after_header next r out) ≡ false
unfolding after_header with_header
after_header-ends next k pieces eof out s h ends = refl
after_header-ends next k pieces (broken m) out s h ends = refl
after_header-ends next k pieces (got hdr rest) out s h ends = ground (
  arith,
  after_data-ends next (frame_end hdr - 2) k rest hdr (read (frame_end hdr - 2) rest) out
      (read-Shrinks (frame_end hdr - 2) rest) (omega (arith, s.1 (omega arith))) ends,
)

log_loop-ends :
    (fuel : ℕ) (pieces : List (Result Bytes Bytes)) (out : Bytes)
    → pieces_size pieces < fuel
    → is_no_fuel (log_loop fuel pieces out) ≡ false
unfolding log_loop
log_loop-ends zero pieces out h = absurd (omega arith)
log_loop-ends (suc fuel) pieces out h =
    after_header-ends (log_loop fuel) fuel pieces (read 8 pieces) out (read-Shrinks 8 pieces) h
      (λ rest o l. log_loop-ends fuel rest o l)

pub docker_log_reader_lem :
    (pieces : List (Result Bytes Bytes))
    → docker_log_reader pieces ≡ log_loop (suc (pieces_size pieces)) pieces []
unfolding docker_log_reader
docker_log_reader_lem pieces = refl

-- One round more than the bytes and pieces of the log is enough: whatever arrives, the loop is
-- left by the end of the log, an error or a panic, and never for want of rounds.
pub docker_log_reader-ends :
    (pieces : List (Result Bytes Bytes)) (out : Bytes) → docker_log_reader pieces ≢ no_fuel out
docker_log_reader-ends pieces out e = ground (
  arith,
  docker_log_reader_lem pieces,
  log_loop-ends (suc (pieces_size pieces)) pieces [] (omega arith),
)
