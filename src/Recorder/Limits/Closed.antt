-- ===== src/Recorder/Limits/Closed.antt =====
-- limits.py: a reply, its cap and its close.
use sealedrun.Prelude.{
  ℕ, ◌+◌, ◌≤◌, ◌<◌, ◌≡◌, refl, inl, inr, List, [], ◌∷◌, ◌++◌, arith, ap, map, length, length-append,
  ltb, Bool-cases,
}
use sealedrun.Result.{body_too_large, Exc, Result, ok, err, ◌>>=◌}
use sealedrun.Model.{Bytes}
use sealedrun.Recorder.Limits.{join, Reply, aclose, read_stream, with_finally, read_reply}

-- How a stream ends, behind `size` bytes that are kept, with its answer and what is unread.
pub data Outcome (limit size : ℕ) (stream : List (Result Bytes)) (answer : Result Bytes)
    (unread : List (Result Bytes)) : Type 0 where
  -- every chunk is there, within the limit
  whole :
      (chunks : List Bytes)
      → stream ≡ map (λ c. Result.ok c) chunks
      → size + length (join chunks) ≤ limit
      → answer ≡ ok (join chunks)
      → unread ≡ []
      → Outcome limit size stream answer unread
  -- a chunk passes the limit, and none before it
  large :
      (chunks : List Bytes) (chunk : Bytes)
      → stream ≡ map (λ c. Result.ok c) chunks ++ ok chunk ∷ unread
      → size + length (join chunks) ≤ limit
      → limit < size + length (join chunks) + length chunk
      → answer ≡ err (body_too_large "upstream reply exceeds size limit")
      → Outcome limit size stream answer unread
  -- the stream raises, behind chunks within the limit
  broken :
      (chunks : List Bytes) (e : Exc)
      → stream ≡ map (λ c. Result.ok c) chunks ++ err e ∷ unread
      → size + length (join chunks) ≤ limit
      → answer ≡ err e
      → Outcome limit size stream answer unread

more-Outcome :
    (limit size : ℕ) (chunk : Bytes) (stream : List (Result Bytes)) (answer : Result Bytes)
    (unread : List (Result Bytes))
    → Outcome limit (size + length chunk) stream answer unread
    → Outcome limit size (ok chunk ∷ stream) (answer >>= λ body. ok (chunk ++ body)) unread
more-Outcome limit size chunk stream answer unread (whole chunks s within a u) =
    whole (chunk ∷ chunks) (ap (λ (x : List (Result Bytes)). Result.ok chunk ∷ x) s)
      (omega (arith, within, length-append chunk (join chunks)))
      (ap (λ (r : Result Bytes). r >>= λ body. ok (chunk ++ body)) a) u
more-Outcome limit size chunk stream answer unread (large chunks last s within above a) =
    large (chunk ∷ chunks) last (ap (λ (x : List (Result Bytes)). Result.ok chunk ∷ x) s)
      (omega (arith, within, length-append chunk (join chunks)))
      (omega (arith, above, length-append chunk (join chunks)))
      (ap (λ (r : Result Bytes). r >>= λ body. ok (chunk ++ body)) a)
more-Outcome limit size chunk stream answer unread (broken chunks e s within a) =
    broken (chunk ∷ chunks) e (ap (λ (x : List (Result Bytes)). Result.ok chunk ∷ x) s)
      (omega (arith, within, length-append chunk (join chunks)))
      (ap (λ (r : Result Bytes). r >>= λ body. ok (chunk ++ body)) a)

read_stream-Outcome :
    (limit size : ℕ) (stream : List (Result Bytes))
    → size ≤ limit
    → Outcome limit size stream (read_stream limit size stream).0 (read_stream limit size stream).1
unfolding read_stream
read_stream-Outcome limit size [] h = whole [] refl (omega arith) refl refl
read_stream-Outcome limit size (err e ∷ stream) h = broken [] e refl (omega arith) refl
read_stream-Outcome limit size (ok chunk ∷ stream) h =
    elim (Bool-cases (ltb limit (size + length chunk))) [
      | inl over ↦ rw over (large [] chunk refl (omega arith) (ground (arith, over)) refl)
      | inr under ↦ rw under (
          more-Outcome limit size chunk stream _ _
            (read_stream-Outcome limit (size + length chunk) stream (ground (arith, under))))
    ]

-- What a read of a reply gives, by what `aclose` answers: its exception, or the outcome of the
-- stream.
abbrev pub IsRead : ℕ → Reply → Result (Unit {0}) → Result Bytes × Reply → Type 0
IsRead limit reply (err e) (answer, after) = answer ≡ err e
IsRead limit reply (ok tt) (answer, after) = Outcome limit 0 reply.stream answer after.stream

with_finally-IsRead :
    (limit : ℕ) (reply : Reply) (answer : Result Bytes) (unread : List (Result Bytes))
    (closing : Result (Unit {0})) (after : Reply)
    → after.stream ≡ unread
    → Outcome limit 0 reply.stream answer unread
    → IsRead limit reply closing (with_finally answer (closing, after))
      × ((with_finally answer (closing, after)).1 ≡ after)
unfolding with_finally
with_finally-IsRead limit reply answer unread (err e) after same o = (refl, refl)
with_finally-IsRead limit reply answer unread (ok tt) after same o = (rw same o, refl)

-- A reply is closed exactly once, however the reading ends. Where closing it raises, that exception
-- is the answer. Otherwise the answer is: its chunks together, where they keep to the limit and the
-- stream does not raise; the refusal at the first chunk with which they pass the limit, the rest
-- being left unread; or the exception that the stream raises before that.
pub read_reply-IsRead :
    (reply : Reply) (limit : ℕ)
    → IsRead limit reply reply.closing (read_reply reply limit)
      × ((read_reply reply limit).1.closes ≡ reply.closes + 1)
unfolding read_reply aclose
read_reply-IsRead reply limit =
    let (answer, unread) = read_stream limit 0 reply.stream in
    let (read, after) =
      with_finally-IsRead limit reply (read_stream limit 0 reply.stream).0
        (read_stream limit 0 reply.stream).1 reply.closing
        (record reply { stream = (read_stream limit 0 reply.stream).1; closes = reply.closes + 1 })
        refl (read_stream-Outcome limit 0 reply.stream (omega arith)) in
    (read, ap (λ (r : Reply). r.closes) after)
