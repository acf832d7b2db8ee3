-- ===== src/Tests/ProxyExamples.antt =====
-- A labels header and a conversation.
use sealedrun.Prelude.{
  ◌≤◌, String, List, ◌≡◌, ◌↔◌, true, elem, refl, some, [], ◌∷◌, length, sorted_set,
}
use sealedrun.Prelude.Texts.{split_on}
use sealedrun.Result.{ok}
use sealedrun.Json
use sealedrun.Json.{Json}
use sealedrun.Recorder.Policy.{label_matches, make_rule}
use sealedrun.Recorder.Proxy.Labels.{max_labels, read_items, header_labels, header_labels-all}
use sealedrun.Recorder.Proxy.Prompt.{texts, has_role, is_system, system_texts}
use sealedrun.Recorder.Proxy.Prompt.Said.{Said, system_texts-Said}

abbrev toy_labels : List String
toy_labels = "acme:tier-1" ∷ "pii" ∷ []

toy_header : header_labels (λ s. s) (some "pii,acme:tier-1,pii") ≡ ok toy_labels
unfolding header_labels read_items split_on label_matches sorted_set
toy_header = refl

header_labels-all_example :
    (make_rule toy_labels ≡ ok (record { block_to_cloud = toy_labels }))
    × (length toy_labels ≤ max_labels)
header_labels-all_example =
    header_labels-all (λ s. s) (some "pii,acme:tier-1,pii") toy_labels toy_header

abbrev toy_message : String → String → Json
toy_message role content =
    Json.object
      (Json.field "role" (Json.text role) (Json.field "content" (Json.text content) Json.no_fields))

abbrev toy_conversation : List Json
toy_conversation =
    toy_message "system" "a" ∷ toy_message "user" "b" ∷ toy_message "developer" "c" ∷ []

toy_instructions : system_texts toy_conversation ≡ ok ("a" ∷ "c" ∷ [])
unfolding system_texts is_system has_role texts
toy_instructions = refl

system_texts-Said_example : (elem "c" ("a" ∷ "c" ∷ []) ≡ true) ↔ Said "c" toy_conversation
system_texts-Said_example = system_texts-Said "c" toy_conversation ("a" ∷ "c" ∷ []) toy_instructions
