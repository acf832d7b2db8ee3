-- ===== src/Recorder/Proxy/Prompt/Said.antt =====
-- prompt.py: what the instructions of a conversation are.
use sealedrun.Prelude.{
  String, ◌==◌, ◌≡◌, ◌↔◌, ◌⊎◌, inl, inr, refl, sym, ap, ◌∙◌, subst, Bool, true, false, ◌||◌, Option,
  none, some, List, [], ◌∷◌, ◌++◌, elem, if◌then◌else◌, arith, eq_iff, Bool-cases,
}
use sealedrun.Result.{Result, ok, >>=-eq-ok, ok-injective}
use sealedrun.Json
use sealedrun.Json.{Json, Fields, list_of}
use sealedrun.Recorder.Proxy.Prompt.{
  part_text, part_texts, texts, has_role, is_system, system_texts,
}

-- A text is a part of a list: itself, or the `text` of a block.
abbrev pub PartHolds : String → List Json → Type 0
PartHolds s [] = ⊥
PartHolds s (Json.text t ∷ parts) = (t ≡ s) ⊎ PartHolds s parts
PartHolds s (Json.object fields ∷ parts) =
    (Json.field_of "text" fields ≡ some (Json.text s)) ⊎ PartHolds s parts
PartHolds s (_ ∷ parts) = PartHolds s parts

-- A text stands in a content.
abbrev pub Holds : String → Option Json → Type 0
Holds s (some (Json.text t)) = t ≡ s
Holds s (some (Json.array parts)) = PartHolds s (list_of parts)
Holds s _ = ⊥

-- A message instructs by a text: its role is `system` or `developer`, and its content holds it.
abbrev pub Instructs : String → Json → Type 0
Instructs s (Json.object fields) =
    ((Json.field_of "role" fields ≡ some (Json.text "system"))
      ⊎ (Json.field_of "role" fields ≡ some (Json.text "developer")))
    × Holds s (Json.field_of "content" fields)
Instructs s _ = ⊥

-- A message of the list instructs by the text.
abbrev pub Said : String → List Json → Type 0
Said s [] = ⊥
Said s (message ∷ messages) = Instructs s message ⊎ Said s messages

elem-append : (s : String) (xs ys : List String) → elem s (xs ++ ys) ≡ (elem s xs || elem s ys)
elem-append s [] ys = refl
elem-append s (x ∷ xs) ys = ground (arith, elem-append s xs ys)

-- Membership in two lists, by what each side is.
either_side :
    {P Q : Type 0} (s : String) (xs ys : List String)
    → ((elem s xs ≡ true) ↔ P)
    → ((elem s ys ≡ true) ↔ Q)
    → ((elem s (xs ++ ys) ≡ true) ↔ (P ⊎ Q))
either_side s xs ys p q = (
  (λ h. elim (Bool-cases (elem s xs)) [
    | inl e ↦ inl (p.0 e)
    | inr e ↦ inr (q.0 (ground (arith, h, e, elem-append s xs ys)))
  ]),
  (λ h. elim h [
    | inl a ↦ let e = p.1 a in ground (arith, e, elem-append s xs ys)
    | inr b ↦ let e = q.1 b in ground (arith, e, elem-append s xs ys)
  ]),
)

one_text : (s t : String) → (elem s (t ∷ []) ≡ true) ↔ (t ≡ s)
one_text s t = (
  (λ h. (eq_iff t s).0 (ground (arith, h))),
  (λ e. let k = (eq_iff t s).1 e in ground (arith, k)),
)

given_text-Holds :
    (s : String) (o : Option Json)
    → (elem s (elim (Json.given_text o) [ none ↦ [] | some t ↦ t ∷ [] ]) ≡ true)
      ↔ (o ≡ some (Json.text s))
given_text-Holds s none = ((λ h. absurd (cc h)), (λ h. absurd (cc h)))
given_text-Holds s (some (Json.text t)) = (
  (λ h. ap (λ (x : String). some (Json.text x)) ((one_text s t).0 h)),
  (λ h. (one_text s t).1 (cc h)),
)
given_text-Holds s (some Json.null) = ((λ h. absurd (cc h)), (λ h. absurd (cc h)))
given_text-Holds s (some (Json.boolean b)) = ((λ h. absurd (cc h)), (λ h. absurd (cc h)))
given_text-Holds s (some (Json.int b n)) = ((λ h. absurd (cc h)), (λ h. absurd (cc h)))
given_text-Holds s (some (Json.float b t)) = ((λ h. absurd (cc h)), (λ h. absurd (cc h)))
given_text-Holds s (some (Json.array items)) = ((λ h. absurd (cc h)), (λ h. absurd (cc h)))
given_text-Holds s (some (Json.object _)) = ((λ h. absurd (cc h)), (λ h. absurd (cc h)))

part_texts-PartHolds :
    (s : String) (parts : List Json) → (elem s (part_texts parts) ≡ true) ↔ PartHolds s parts
part_texts-PartHolds s [] = ((λ h. absurd (cc h)), (λ h. absurd h))
part_texts-PartHolds s (Json.text t ∷ parts) =
    either_side s (t ∷ []) (part_texts parts) (one_text s t) (part_texts-PartHolds s parts)
part_texts-PartHolds s (Json.object fields ∷ parts) =
    either_side s (part_text (Json.object fields)) (part_texts parts)
      (given_text-Holds s (Json.field_of "text" fields)) (part_texts-PartHolds s parts)
part_texts-PartHolds s (Json.null ∷ parts) = part_texts-PartHolds s parts
part_texts-PartHolds s (Json.boolean b ∷ parts) = part_texts-PartHolds s parts
part_texts-PartHolds s (Json.int b n ∷ parts) = part_texts-PartHolds s parts
part_texts-PartHolds s (Json.float b t ∷ parts) = part_texts-PartHolds s parts
part_texts-PartHolds s (Json.array items ∷ parts) = part_texts-PartHolds s parts

texts-Holds : (s : String) (o : Option Json) → (elem s (texts o) ≡ true) ↔ Holds s o
unfolding texts
texts-Holds s none = ((λ h. absurd (cc h)), (λ h. absurd h))
texts-Holds s (some (Json.text t)) = one_text s t
texts-Holds s (some (Json.array items)) = part_texts-PartHolds s (list_of items)
texts-Holds s (some Json.null) = ((λ h. absurd (cc h)), (λ h. absurd h))
texts-Holds s (some (Json.boolean b)) = ((λ h. absurd (cc h)), (λ h. absurd h))
texts-Holds s (some (Json.int b n)) = ((λ h. absurd (cc h)), (λ h. absurd h))
texts-Holds s (some (Json.float b t)) = ((λ h. absurd (cc h)), (λ h. absurd h))
texts-Holds s (some (Json.object _)) = ((λ h. absurd (cc h)), (λ h. absurd h))

role_text :
    (t : String) {found : Bool}
    → ok (elem t ("system" ∷ "developer" ∷ [])) ≡ ok found
    → (found ≡ true) ↔ (
        (some (Json.text t) ≡ some (Json.text "system"))
        ⊎ (some (Json.text t) ≡ some (Json.text "developer")))
role_text t {found} h = (
  (λ e. elim (Bool-cases ("system" == t)) [
    | inl a ↦ inl (ap (λ (x : String). some (Json.text x)) (sym ((eq_iff "system" t).0 a)))
    | inr a ↦
        let b : ("developer" == t) ≡ true = ground (arith, h, e, a) in
        inr (ap (λ (x : String). some (Json.text x)) (sym ((eq_iff "developer" t).0 b)))
  ]),
  (λ e. elim e [
    | inl a ↦ let k = (eq_iff "system" t).1 (cc a) in ground (arith, h, k)
    | inr a ↦ let k = (eq_iff "developer" t).1 (cc a) in ground (arith, h, k)
  ]),
)

other_role :
    {found : Bool} {A : Type 0}
    → ◌≡◌ {A = Result Bool} (ok false) (ok found)
    → (A → ⊥)
    → (found ≡ true) ↔ A
other_role h never = ((λ e. absurd (cc (ok-injective h, e))), (λ a. absurd (never a)))

abbrev IsRole : Option Json → Type 0
IsRole o = (o ≡ some (Json.text "system")) ⊎ (o ≡ some (Json.text "developer"))

has_role-IsRole :
    (o : Option Json) {found : Bool} → has_role o ≡ ok found → (found ≡ true) ↔ IsRole o
unfolding has_role
has_role-IsRole none h = other_role h (λ a. elim a [ inl e ↦ cc e | inr e ↦ cc e ])
has_role-IsRole (some (Json.text t)) h = role_text t h
has_role-IsRole (some Json.null) h = other_role h (λ a. elim a [ inl e ↦ cc e | inr e ↦ cc e ])
has_role-IsRole (some (Json.boolean b)) h =
    other_role h (λ a. elim a [ inl e ↦ cc e | inr e ↦ cc e ])
has_role-IsRole (some (Json.int b n)) h = other_role h (λ a. elim a [ inl e ↦ cc e | inr e ↦ cc e ])
has_role-IsRole (some (Json.float b t)) h =
    other_role h (λ a. elim a [ inl e ↦ cc e | inr e ↦ cc e ])
has_role-IsRole (some (Json.array items)) h = absurd (cc h)
has_role-IsRole (some (Json.object _)) h = absurd (cc h)

-- The texts of one message.
abbrev own : Bool → Json → List String
own found message = if found then texts (Json.get "content" message) else []

none_found :
    (s : String) {found : Bool} (message : Json)
    → ◌≡◌ {A = Result Bool} (ok false) (ok found)
    → (elem s (own found message) ≡ true) ↔ ⊥
none_found s message h = ((λ e. ground (arith, ok-injective h, e)), (λ a. absurd a))

own_object :
    (s : String) (found : Bool) (fields : Fields)
    → ((found ≡ true) ↔ IsRole (Json.field_of "role" fields))
    → (elem s (own found (Json.object fields)) ≡ true) ↔ Instructs s (Json.object fields)
own_object s true fields r = (
  (λ e. (r.0 refl, (texts-Holds s (Json.field_of "content" fields)).0 e)),
  (λ a. (texts-Holds s (Json.field_of "content" fields)).1 a.1),
)
own_object s false _ r = ((λ e. absurd (cc e)), (λ a. absurd (cc (r.1 a.0))))

own-Instructs :
    (s : String) (message : Json) (found : Bool)
    → is_system message ≡ ok found
    → (elem s (own found message) ≡ true) ↔ Instructs s message
unfolding is_system
own-Instructs s (Json.object fields) found h =
    own_object s found fields (has_role-IsRole (Json.field_of "role" fields) h)
own-Instructs s (Json.text t) found h = none_found s (Json.text t) h
own-Instructs s Json.null found h = none_found s Json.null h
own-Instructs s (Json.boolean b) found h = none_found s (Json.boolean b) h
own-Instructs s (Json.int b n) found h = none_found s (Json.int b n) h
own-Instructs s (Json.float b t) found h = none_found s (Json.float b t) h
own-Instructs s (Json.array items) found h = none_found s (Json.array items) h

own_first :
    (found : Bool) (message : Json) (rest : List String)
    → own found message ++ rest
      ≡ (if found then texts (Json.get "content" message) ++ rest else rest)
own_first true message rest = refl
own_first false message rest = refl

-- A text is among the instructions that are read of a conversation just if some message of it whose
-- role is `system` or `developer` holds the text: as its content, as a text of its content, or as
-- the `text` of a block of its content.
pub system_texts-Said :
    (s : String) (messages : List Json) (found : List String)
    → system_texts messages ≡ ok found
    → (elem s found ≡ true) ↔ Said s messages
unfolding system_texts
system_texts-Said s [] found h =
    subst (λ (x : List String). (elem s x ≡ true) ↔ ⊥) (ok-injective h)
      ((λ e. absurd (cc e)), (λ a. absurd a))
system_texts-Said s (message ∷ messages) found h =
    let (is, a, h1) = >>=-eq-ok (is_system message) _ h in
    let (rest, b, h2) = >>=-eq-ok (system_texts messages) _ h1 in
    subst (λ (x : List String). (elem s x ≡ true) ↔ Said s (message ∷ messages))
      (own_first is message rest ∙ ok-injective h2)
      (either_side s (own is message) rest (own-Instructs s message is a)
        (system_texts-Said s messages rest b))
