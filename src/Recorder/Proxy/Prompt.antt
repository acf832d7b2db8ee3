-- ===== src/Recorder/Proxy/Prompt.antt =====
-- services/recorder/src/sealedrun_recorder/proxy/prompt.py: the system instructions of a request.
pub mod Said
use Prim.Native.String
use sealedrun.Prelude.{
  String, ◌≡◌, refl, ap, Bool, false, Option, none, some, List, [], ◌∷◌, ◌++◌, elem, if◌then◌else◌,
  arith,
}
use sealedrun.Model.{Bytes}
use sealedrun.Result.{type_error, Result, ok, err, ◌>>=◌}
use sealedrun.Json
use sealedrun.Json.{Json, Fields, list_of}

abbrev pub system_roles : List String
system_roles = "system" ∷ "developer" ∷ []

-- A text, or the text of a block.
abbrev pub part_text : Json → List String
part_text (Json.text s) = s ∷ []
part_text (Json.object fields) = elim (Json.given_text (Json.field_of "text" fields)) [
  | none ↦ []
  | some s ↦ s ∷ []
]
part_text _ = []

abbrev pub part_texts : List Json → List String
part_texts [] = []
part_texts (part ∷ parts) = part_text part ++ part_texts parts

-- `_texts`
unfoldable pub texts : Option Json → List String
texts (some (Json.text s)) = s ∷ []
texts (some (Json.array parts)) = part_texts (list_of parts)
texts _ = []

-- `role in SYSTEM_ROLES`, for which the role is hashed: a list or a dictionary has no hash.
unfoldable pub has_role : Option Json → Result Bool
has_role (some (Json.text role)) = ok (elem role system_roles)
has_role (some (Json.array _)) = err (type_error "unhashable type: 'list'")
has_role (some (Json.object _)) = err (type_error "unhashable type: 'dict'")
has_role _ = ok false

-- Whether a message is an instruction.
unfoldable pub is_system : Json → Result Bool
is_system (Json.object fields) = has_role (Json.field_of "role" fields)
is_system _ = ok false

-- The texts of the system messages of a list.
unfoldable pub system_texts : List Json → Result (List String)
system_texts [] = ok []
system_texts (message ∷ messages) =
    let others = system_texts messages in
    do
      found ← is_system message
      rest ← others
      ok (if found then texts (Json.get "content" message) ++ rest else rest)

-- `_from_messages`
unfoldable pub from_messages : Option Json → Result (List String)
from_messages (some (Json.array messages)) = system_texts (list_of messages)
from_messages _ = ok []

join_lines : String → List String → String
join_lines s [] = s
join_lines s (t ∷ rest) = String.◌++◌ s (String.◌++◌ "\n" (join_lines t rest))

module _ (encode : String → Bytes) where
  -- `_joined`
  unfoldable pub joined : List String → Option Bytes
  unfolding join_lines
  joined [] = none
  joined (s ∷ rest) = some (encode (join_lines s rest))

  -- `openai_chat`, and `ollama_chat`, which reads the same
  unfoldable pub openai_chat : Fields → Result (Option Bytes)
  openai_chat call = do found ← from_messages (Json.field_of "messages" call); ok (joined found)

  unfoldable pub openai_responses : Fields → Result (Option Bytes)
  openai_responses call = do
    found ← from_messages (Json.field_of "input" call)
    ok (joined (texts (Json.field_of "instructions" call) ++ found))

  -- `anthropic_messages`, and `ollama_generate`, which reads the same
  unfoldable pub anthropic_messages : Fields → Option Bytes
  anthropic_messages call = joined (texts (Json.field_of "system" call))

  instruction_of : Option Json → List String
  instruction_of (some (Json.text s)) = s ∷ []
  instruction_of (some (Json.object fields)) = texts (Json.field_of "parts" fields)
  instruction_of _ = []

  -- `gemini_generate`
  unfoldable pub gemini_generate : Fields → Option Bytes
  unfolding instruction_of
  gemini_generate call = joined (
      instruction_of (elim (Json.field_of "systemInstruction" call) [
        | none ↦ Json.field_of "system_instruction" call
        | some instruction ↦ some instruction
      ]))
