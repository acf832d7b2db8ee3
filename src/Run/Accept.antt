-- ===== src/Run/Accept.antt =====
-- verify.py: an accepted run, taken apart record by record.
use sealedrun.Prelude.{
  ℕ, ◌+◌, ◌-◌, ◌∙◌, String, ◌==◌, ◌≡◌, refl, Bool, false, ◌||◌, List, [], ◌∷◌, elem,
}
use sealedrun.Result.{ok, >>=-eq-ok, >>-eq-ok, ok-injective}
use sealedrun.Model.{Record}
use sealedrun.Library.{Library}
use sealedrun.Chain.{Linked}
use sealedrun.Scope
use sealedrun.Approval
use sealedrun.Run.{check_witnessed, collect, Options, Progress, admit, observe, verify_loop}
use sealedrun.Run.Checks.{Setting, check_context, check_receipt}
use sealedrun.Run.Admit.{IsAuthorised, IsAdmitted, admit-IsAdmitted}

-- The ids of a list are apart from each other and from those seen.
abbrev pub Fresh : List String → List Record → Type 0
Fresh seen [] = Unit
Fresh seen (entry ∷ rest) =
    (elem entry.protected.record_id seen ≡ false) × Fresh (entry.protected.record_id ∷ seen) rest

-- A `run_end` is the last record.
abbrev pub EndsOnce : Record → List Record → Bool → Type 0
EndsOnce first [] ended = ended ≡ (first.protected.kind == "run_end")
EndsOnce first (next ∷ rest) ended =
    ((first.protected.kind == "run_end") ≡ false) × EndsOnce next rest ended

module _ (lib : Library) (options : Options) (setting : Setting) where
  -- What `observe` writes, whatever it reports.
  pub record IsObserved (p p' : Progress) (entry : Record) : Type 0 where
    pub head : p'.prev_hash ≡ entry.hash
    pub seen : p'.seen_ids ≡ entry.protected.record_id ∷ p.seen_ids
    pub ended : p'.ended ≡ (p.ended || entry.protected.kind == "run_end")
    pub run_id : p'.report.run_id ≡ p.report.run_id
    pub record_count : p'.report.record_count ≡ p.report.record_count
    pub first_seq : p'.report.first_seq ≡ p.report.first_seq
    pub last_hash : p'.report.last_hash ≡ p.report.last_hash

  observe-IsObserved :
      (seq : ℕ) (entry : Record) (p p' : Progress)
      → observe lib options setting seq entry p ≡ ok p'
      → IsObserved p p' entry
  unfolding observe
  observe-IsObserved seq entry p p' h =
      let (a, _, h1) =
        >>=-eq-ok
          (check_witnessed lib options setting entry seq
            (p.report.anchors, p.report.anchors_witness_verified))
          _ h in
      let (b, _, h2) =
        >>=-eq-ok (check_context entry.protected p.policy_set_hash setting.run_id seq) _ h1 in
      let (c, _, h3) = >>=-eq-ok (check_receipt entry.protected setting.run_id seq) _ h2 in
      let (d, _, h4) =
        >>=-eq-ok
          (collect options.strict_scope setting.run_id seq
            (Scope.findings setting.scope entry.protected (seq - setting.first_seq + 1))
            p.report.findings)
          _ h3 in
      let (e, _, h5) =
        >>=-eq-ok
          (collect options.strict_approval setting.run_id seq
            (Approval.findings entry.protected p.waiting).0 d)
          _ h4 in
      rw (← ok-injective h5) (record {
        head = refl;
        seen = refl;
        ended = refl;
        run_id = refl;
        record_count = refl;
        first_seq = refl;
        last_hash = refl;
      })

  -- The loop, record by record: each was admitted and observed.
  abbrev pub Accepted : ℕ → List Record → Progress → Progress → Type 0
  Accepted seq [] p q = p ≡ q
  Accepted seq (entry ∷ rest) p q =
      (p' : Progress) × IsAdmitted lib options setting p seq entry
      × IsObserved p p' entry
      × Accepted (seq + 1) rest p' q

  pub verify_loop-Accepted :
      (seq : ℕ) (records : List Record) (p q : Progress)
      → verify_loop lib options setting seq records p ≡ ok q
      → Accepted seq records p q
  unfolding verify_loop
  verify_loop-Accepted seq [] p q h = ok-injective h
  verify_loop-Accepted seq (entry ∷ rest) p q h =
      let (k, a) = >>-eq-ok (admit lib options setting seq entry p) _ h in
      let (p', o, l) = >>=-eq-ok (observe lib options setting seq entry p) _ k in
      (
        p',
        admit-IsAdmitted lib options setting seq entry p a,
        observe-IsObserved seq entry p p' o,
        verify_loop-Accepted (seq + 1) rest p' q l,
      )

  pub Accepted-Linked :
      (seq : ℕ) (records : List Record) (p q : Progress)
      → Accepted seq records p q
      → Linked lib setting.run_id setting.hash_alg seq p.prev_hash records
  Accepted-Linked seq [] p q a = tt
  Accepted-Linked seq (entry ∷ rest) p q (p', m, o, a) =
      (m.placed.link, rw (← o.head) (Accepted-Linked (seq + 1) rest p' q a))

  -- Each record of a list is the agent's own.
  abbrev pub Authorised : List Record → Type 0
  Authorised [] = Unit
  Authorised (entry ∷ rest) = IsAuthorised lib setting entry × Authorised rest

  pub Accepted-Authorised :
      (seq : ℕ) (records : List Record) (p q : Progress)
      → Accepted seq records p q
      → Authorised records
  Accepted-Authorised seq [] p q a = tt
  Accepted-Authorised seq (entry ∷ rest) p q (p', m, o, a) =
      (m.authorised, Accepted-Authorised (seq + 1) rest p' q a)

  pub Accepted-Fresh :
      (seq : ℕ) (records : List Record) (p q : Progress)
      → Accepted seq records p q
      → Fresh p.seen_ids records
  Accepted-Fresh seq [] p q a = tt
  Accepted-Fresh seq (entry ∷ rest) p q (p', m, o, a) =
      (m.placed.fresh, rw (← o.seen) (Accepted-Fresh (seq + 1) rest p' q a))

  pub Accepted-EndsOnce :
      (seq : ℕ) (first : Record) (rest : List Record) (p q : Progress)
      → p.ended ≡ false
      → Accepted seq (first ∷ rest) p q
      → EndsOnce first rest q.ended
  Accepted-EndsOnce seq first [] p q e (p', m, o, a) = cc (a, o.ended, e)
  Accepted-EndsOnce seq first (next ∷ rest) p q e (p', m, o, (p2, m2, o2, a2)) =
      let k : ((first.protected.kind == "run_end") ≡ false) = cc (m2.placed.unended, o.ended, e) in
      (k, Accepted-EndsOnce (seq + 1) next rest p' q m2.placed.unended (p2, m2, o2, a2))

  -- The report's figures that the loop leaves alone.
  pub Accepted-report :
      (seq : ℕ) (records : List Record) (p q : Progress)
      → Accepted seq records p q
      → (q.report.run_id ≡ p.report.run_id)
        × (q.report.record_count ≡ p.report.record_count)
        × (q.report.first_seq ≡ p.report.first_seq)
        × (q.report.last_hash ≡ p.report.last_hash)
  Accepted-report seq [] p q a = (cc, cc, cc, cc)
  Accepted-report seq (entry ∷ rest) p q (p', m, o, a) =
      let (i, j, k, l) = Accepted-report (seq + 1) rest p' q a in
      (i ∙ o.run_id, j ∙ o.record_count, k ∙ o.first_seq, l ∙ o.last_hash)
