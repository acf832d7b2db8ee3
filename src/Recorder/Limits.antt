-- ===== src/Recorder/Limits.antt =====
-- services/recorder/src/sealedrun_recorder/limits.py: reading a body chunk by chunk up to a cap.
pub mod Cap
pub mod Closed
use sealedrun.Prelude.{
  ℕ, ◌+◌, String, Bool, true, Option, none, some, List, [], ◌∷◌, ◌++◌, length, if◌then◌else◌, ltb,
}
use sealedrun.Result.{body_too_large, Result, ok, err, raise_if, ◌>>=◌, ◌>>◌}
use sealedrun.Model.{Bytes}

-- `b"".join(chunks)`
abbrev pub join : List Bytes → Bytes
join [] = []
join (chunk ∷ chunks) = chunk ++ join chunks

-- The loop over the chunks of a stream; `size` counts the bytes kept.
unfoldable pub read_chunks : ℕ → String → ℕ → List Bytes → Result Bytes
read_chunks limit message size [] = ok []
read_chunks limit message size (chunk ∷ chunks) = do
  raise_if (ltb limit (size + length chunk)) (body_too_large message)
  rest ← read_chunks limit message (size + length chunk) chunks
  ok (chunk ++ rest)

-- The body that an earlier call cached on the request, or the stream.
read_cached : Option Bytes → List Bytes → ℕ → Result Bytes
read_cached none chunks limit = read_chunks limit "request body exceeds size limit" 0 chunks
read_cached (some body) chunks limit =
    if ltb limit (length body)
    then err (body_too_large "request body exceeds size limit")
    else ok body

-- `read_body`, with the number that `Content-Length` declares where it is one.
unfoldable pub read_body : Option ℕ → Option Bytes → List Bytes → ℕ → Result Bytes
unfolding read_cached
read_body none cached chunks limit = read_cached cached chunks limit
read_body (some declared) cached chunks limit =
    if ltb limit declared
    then err (body_too_large "request body exceeds size limit")
    else read_cached cached chunks limit

-- The stream of a reply, of which each item is a chunk or the exception that reading it raises; what
-- `aclose` answers, and how often it was called.
pub record Reply : Type 0 where
  pub stream : List (Result Bytes)
  pub closing : Result (Unit {0})
  pub closes : ℕ

-- `reply.aclose()`
unfoldable pub aclose : Reply → Result (Unit {0}) × Reply
aclose reply = (reply.closing, record reply { closes = reply.closes + 1 })

-- The loop of `read_reply`, with what it leaves unread.
unfoldable pub read_stream : ℕ → ℕ → List (Result Bytes) → Result Bytes × List (Result Bytes)
read_stream limit size [] = (ok [], [])
read_stream limit size (err e ∷ stream) = (err e, stream)
read_stream limit size (ok chunk ∷ stream) =
    let (rest, unread) = read_stream limit (size + length chunk) stream in
    if ltb limit (size + length chunk)
    then (err (body_too_large "upstream reply exceeds size limit"), stream)
    else (rest >>= λ body. ok (chunk ++ body), unread)

-- `try: … finally: …`: an exception of the last part stands in place of the first part's answer.
unfoldable pub with_finally : Result Bytes → Result (Unit {0}) × Reply → Result Bytes × Reply
with_finally answer (err e, reply) = (err e, reply)
with_finally answer (ok tt, reply) = (answer, reply)

-- `read_reply`
unfoldable pub read_reply : Reply → ℕ → Result Bytes × Reply
unfolding with_finally
read_reply reply limit =
    let (answer, unread) = read_stream limit 0 reply.stream in
    with_finally answer (aclose (record reply { stream = unread }))
