-- ===== src/Recorder/Limits/Cap.antt =====
-- limits.py: bodies and their cap.
use sealedrun.Prelude.{
  ℕ, ◌+◌, ◌≤◌, ◌<◌, String, ◌≡◌, refl, ◌⊎◌, inl, Option, none, some, List, [], ◌∷◌, arith, length,
  length-append,
}
use sealedrun.Result.{body_too_large, ok, err}
use sealedrun.Model.{Bytes}
use sealedrun.Recorder.Limits.{join, read_chunks, read_body}

read_chunks-Capped :
    (limit : ℕ) (message : String) (size : ℕ) (chunks : List Bytes)
    → size ≤ limit
    → ((size + length (join chunks) ≤ limit)
        × (read_chunks limit message size chunks ≡ ok (join chunks)))
      ⊎ ((limit < size + length (join chunks))
          × (read_chunks limit message size chunks ≡ err (body_too_large message)))
unfolding read_chunks
read_chunks-Capped limit message size [] h = inl (omega arith, refl)
read_chunks-Capped limit message size (chunk ∷ chunks) h = ground (
  arith,
  length-append chunk (join chunks),
  read_chunks-Capped limit message (size + length chunk) chunks,
)

-- Whatever a client declares, caches or streams, a request body that is returned is within the limit.
pub read_body_within :
    (declared : Option ℕ) (cached : Option Bytes) (chunks : List Bytes) (limit : ℕ) {body : Bytes}
    → read_body declared cached chunks limit ≡ ok body
    → length body ≤ limit
unfolding read_body
read_body_within none none chunks limit h =
    ground (arith, read_chunks-Capped limit "request body exceeds size limit" 0 chunks)
read_body_within none (some c) chunks limit h = ground arith
read_body_within (some d) none chunks limit h =
    ground (arith, read_chunks-Capped limit "request body exceeds size limit" 0 chunks)
read_body_within (some d) (some c) chunks limit h = ground arith
