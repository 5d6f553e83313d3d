-- ===== src/Docker/LogReader/Torn.antt =====
-- The log reader on logs whose last frame may arrive in two reads.
use px_installer.Base.{
  ℕ, zero, suc, ◌+◌, ◌-◌, ◌^◌, ◌≤◌, ◌<◌, List, [], ◌∷◌, ◌++◌, ◌≡◌, refl, ap, ◌∙◌, arith,
  if◌then◌else◌, length, length-append, All, Bytes, lit, ◌==◌, append_assoc, append-nil,
}
use px_installer.Base.Result.{Result, ok}
use px_installer.Docker.LogReader.{
  LogEnd, all_read, failed, got, read, pieces_size, tag, after_data, with_header, after_header,
  log_loop, docker_log_reader,
}
use px_installer.Docker.LogReader.Termination.{docker_log_reader_lem}
use px_installer.Docker.LogReader.Frames.{
  Frame, header_of, pieces_of, rendered, read_whole, frame_end-header_of, log_loop-frame,
}

-- What may follow whole frames, and how the reading should end there: nothing, or a frame of which
-- one read gives the header, the next one the front of the payload, and the third one the rest of
-- it, of less than 8 bytes.
pub data IsTail : List (Result Bytes Bytes) → (Bytes → LogEnd) → Type 0 where
  no_more : IsTail [] all_read
  torn :
      (f : Frame) (front back : Bytes) (pieces : List (Result Bytes Bytes))
      → f.payload ≡ front ++ back
      → length f.payload + 2 < 2 ^ 32
      → length back < 8
      → IsTail (ok (header_of f) ∷ ok front ∷ ok back ∷ pieces) (λ out.
        failed
          (lit "Short write (hdr)")
          (out ++ ((if f.stream == 1 then lit "> " else lit "E ") ++ front)))

-- Each whole frame takes one round.
log_loop-pieces_of :
    (fuel left : ℕ) (frames : List Frame) (tail : List (Result Bytes Bytes)) (out : Bytes)
    → fuel ≡ length frames + left
    → All (λ f. length f.payload + 2 < 2 ^ 32) frames
    → log_loop fuel (pieces_of frames ++ tail) out ≡ log_loop left tail (out ++ rendered frames)
unfolding pieces_of rendered
log_loop-pieces_of fuel left [] tail out e a =
    let same : fuel ≡ left = omega arith in rw (append-nil, same) refl
log_loop-pieces_of zero left (f ∷ frames) tail out e a = absurd (omega arith)
log_loop-pieces_of (suc fuel) left (f ∷ frames) tail out e a =
    log_loop-frame fuel f (pieces_of frames ++ tail) out a.0
    ∙ log_loop-pieces_of fuel left frames tail _ (omega arith) a.1
    ∙ ap (log_loop left tail) (simp append_assoc)

log_loop-short :
    (fuel : ℕ) (back : Bytes) (pieces : List (Result Bytes Bytes)) (out : Bytes)
    → length back < 8
    → log_loop (suc fuel) (ok back ∷ pieces) out ≡ failed (lit "Short write (hdr)") out
unfolding log_loop after_header
log_loop-short fuel back pieces out h = rw (read_whole 8 back pieces (omega arith)) (ground arith)

with_header-front :
    (next : List (Result Bytes Bytes) → Bytes → LogEnd) (f : Frame) (front : Bytes)
    (pieces : List (Result Bytes Bytes)) (out : Bytes)
    → length f.payload + 2 < 2 ^ 32
    → length front ≤ length f.payload
    → with_header next (header_of f) (ok front ∷ pieces) out
      ≡ next pieces (out ++ ((if f.stream == 1 then lit "> " else lit "E ") ++ front))
unfolding with_header after_data tag
with_header-front next f front pieces out h l =
    let e = frame_end-header_of f h in
    rw (e, with_header)
      (let r : read (length f.payload + 2 - 2) (ok front ∷ pieces) ≡ got front pieces =
          read_whole (length f.payload + 2 - 2) front pieces (omega arith) in
        rw r (ground arith))

log_loop-IsTail :
    (left : ℕ) {tail : List (Result Bytes Bytes)} {end : Bytes → LogEnd} (out : Bytes)
    → pieces_size tail < left
    → IsTail tail end
    → log_loop left tail out ≡ end out
unfolding pieces_size log_loop after_header with_header
log_loop-IsTail zero out l t = absurd (omega arith)
log_loop-IsTail (suc left) out l no_more = unfold read in refl
log_loop-IsTail (suc zero) out l (torn f front back pieces e h b) = absurd (omega arith)
log_loop-IsTail (suc (suc left)) out l (torn f front back pieces e h b) =
    let part : length front ≤ length f.payload = rw e (omega (arith, length-append front back)) in
    rw (read_whole 8 (header_of f) (ok front ∷ ok back ∷ pieces) (omega arith)) (
      with_header-front (log_loop (suc left)) f front (ok back ∷ pieces) out h part
      ∙ log_loop-short left back pieces _ b)

pieces_size-pieces_of_append :
    (frames : List Frame) (tail : List (Result Bytes Bytes))
    → length frames + pieces_size tail ≤ pieces_size (pieces_of frames ++ tail)
unfolding pieces_of pieces_size
pieces_size-pieces_of_append [] tail = omega arith
pieces_size-pieces_of_append (f ∷ frames) tail =
    omega (arith, pieces_size-pieces_of_append frames tail)

-- Frames in Docker's format, each shorter than 2^32 - 2 bytes, of which one read gives the whole
-- header and the next one the whole payload, are written in order, each payload behind "> " for
-- the standard output and "E " for any other stream. If the log ends there, it was all read. If a
-- frame follows whose payload arrives in two reads, the second of less than 8 bytes, only the part
-- of the first read is written, and the reading ends there with an error.
pub docker_log_reader-IsTail :
    (frames : List Frame) {tail : List (Result Bytes Bytes)} {end : Bytes → LogEnd}
    → All (λ f. length f.payload + 2 < 2 ^ 32) frames
    → IsTail tail end
    → docker_log_reader (pieces_of frames ++ tail) ≡ end (rendered frames)
docker_log_reader-IsTail frames {tail} a t =
    let pieces = pieces_of frames ++ tail in
    let left = suc (pieces_size pieces) - length frames in
    docker_log_reader_lem pieces
    ∙ log_loop-pieces_of (suc (pieces_size pieces)) left frames tail []
        (omega (arith, pieces_size-pieces_of_append frames tail)) a
    ∙ log_loop-IsTail left (rendered frames)
        (omega (arith, pieces_size-pieces_of_append frames tail)) t
