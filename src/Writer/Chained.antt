-- ===== src/Writer/Chained.antt =====
-- records.py: the writers that a client can reach, and their records.
use sealedrun.Prelude.{
  String, ◌≡◌, ◌==◌, refl, sym, ap, subst, true, false, Option, List, [], ◌∷◌, ◌++◌, ◌∙◌, arith,
  length, length-append, Dict, not, nat_eq, if◌then◌else◌, is_nil, ◌&&◌,
}
use sealedrun.Result.{ok, >>=-eq-ok, >>-eq-ok, ok-injective, raise_if, value_error}
use sealedrun.Model.{Doc, Record, Delegation}
use sealedrun.Library.{Library}
use sealedrun.Hashing.{zero_hash}
use sealedrun.Keys.{Signers}
use sealedrun.Chain.{
  head_of, head_of-append, head_of-last, Linked, Linked-append, Linked-cast, Linked-split,
  Linked-last,
}
use sealedrun.Writer.{
  Writer, Fields, new_writer, preview, append, start_binding, run_target, start, finish, revert,
  seal_doc, init, set_records,
}
use sealedrun.Writer.Revert.{
  IsStep, is_nil-append, init-append, seal_doc-IsStep, revert-IsStep, revert-IsStep_end,
}

module _ (lib : Library) where
  -- An append is a step on the document that `preview` built.
  pub append-IsStep :
      (w w' : Writer) (kind : String) (f : Fields) (entry : Record)
      → append lib w kind f ≡ ok (w', entry)
      → (doc : Doc) × (preview lib w kind f ≡ ok doc) × IsStep lib w w' doc entry
  unfolding append
  append-IsStep w w' kind f entry h =
      let (doc, p, q) = >>=-eq-ok (preview lib w kind f) _ h in
      (doc, p, seal_doc-IsStep lib w w' doc entry q)

  preview_closed :
      (w : Writer) (kind : String) (f : Fields) (doc : Doc)
      → preview lib w kind f ≡ ok doc
      → (w.closed ≡ false)
        × (doc.run_id ≡ w.run_id)
        × (doc.hash_alg ≡ w.hash_alg)
        × (doc.kind ≡ kind)
  unfolding preview
  preview_closed w kind f doc h = ground arith

  -- A record that could not be stored is taken back by `revert`: the writer is as it was.
  pub revert-append :
      (w w' : Writer) (kind : String) (f : Fields) (entry : Record)
      → append lib w kind f ≡ ok (w', entry)
      → revert w' entry true ≡ ok w
  revert-append w w' kind f entry h =
      let (doc, p, s) = append-IsStep w w' kind f entry h in
      revert-IsStep lib w w' doc entry (preview_closed w kind f doc p).0 s

  -- A `run_end` that could not be stored is taken back too, and the writer is open again.
  pub revert-finish :
      (w w' : Writer) (f : Fields) (entry : Record)
      → finish lib w f ≡ ok (w', entry)
      → (revert w' entry true ≡ ok w) × (w'.run_id ≡ w.run_id)
  unfolding finish
  revert-finish w w' f entry h =
      let ((v, e), p, q) =
        >>=-eq-ok (append lib w "run_end" (record f { target = run_target lib })) _ h in
      let (doc, r, s) = append-IsStep w v "run_end" _ e p in
      let (was_open, _, _, kind) = preview_closed w "run_end" _ doc r in
      subst (λ (x : Writer × Record). (revert x.0 x.1 true ≡ ok w) × (x.0.run_id ≡ w.run_id))
        (ok-injective q)
        (revert-IsStep_end lib w v doc e was_open kind s, ap (λ (x : Writer). x.run_id) s.next)

  -- What holds of a writer between two calls.
  pub record IsChained (w : Writer) : Type 0 where
    pub zero : String
    pub from_zero : zero_hash w.hash_alg ≡ ok zero
    pub chain : Linked lib w.run_id w.hash_alg 0 zero w.records
    pub counted : w.seq ≡ length w.records
    pub at_head : w.head ≡ head_of zero w.records

  new_writer-IsChained :
      (agent : Signers) (delegation : Delegation) (run_id : String) (w : Writer)
      → new_writer agent delegation run_id ≡ ok w
      → IsChained w
  unfolding new_writer
  new_writer-IsChained agent delegation run_id w h =
      let (zero, p, q) = >>=-eq-ok (zero_hash delegation.protected.hash_alg) _ h in
      rw (← ok-injective q)
        (record { zero = zero; from_zero = p; chain = tt; counted = omega arith; at_head = refl })

  IsStep-IsChained :
      (w w' : Writer) (doc : Doc) (entry : Record)
      → IsStep lib w w' doc entry
      → doc.run_id ≡ w.run_id
      → doc.hash_alg ≡ w.hash_alg
      → IsChained w
      → IsChained w'
  IsStep-IsChained w w' doc entry s r a c = rw s.next (record {
    zero = c.zero;
    from_zero = c.from_zero;
    chain =
        Linked-append lib w.run_id w.hash_alg 0 w.seq c.zero w.records entry
          (omega (arith, c.counted)) c.chain
          (record {
            run = cc (s.sealed.same, r);
            alg = cc (s.sealed.same, a);
            place = cc (s.sealed.same, s.in_turn);
            linked = cc (s.sealed.same, s.linked, c.at_head);
            hashed = rw s.sealed.same s.sealed.hashed;
          });
    counted = omega (arith, c.counted, length-append w.records (entry ∷ []));
    at_head = sym (head_of-append c.zero w.records entry);
  })

  append-IsChained :
      (w w' : Writer) (kind : String) (f : Fields) (entry : Record)
      → append lib w kind f ≡ ok (w', entry)
      → IsChained w
      → IsChained w'
  append-IsChained w w' kind f entry h c =
      let (doc, p, s) = append-IsStep w w' kind f entry h in
      let (_, run, alg, _) = preview_closed w kind f doc p in
      IsStep-IsChained w w' doc entry s run alg c

  popped :
      (records rs : List Record) (entry : Record)
      → records ≡ rs ++ entry ∷ []
      → (if not (is_nil records) && true then init records else records) ≡ rs
  popped records rs entry kept = rw (kept, is_nil-append rs entry, init-append rs entry)

  -- Taking back the last of the kept records.
  revert-IsChained :
      (w w' : Writer) (rs : List Record) (entry : Record)
      → w.records ≡ rs ++ entry ∷ []
      → revert w entry true ≡ ok w'
      → IsChained w
      → IsChained w'
  unfolding revert
  revert-IsChained w w' rs entry kept h c =
      let (k, _) =
        >>-eq-ok
          (raise_if (not (entry.hash == w.head))
            (value_error "only the last sealed record can be reverted"))
          _ h in
      let (chain, link) =
        Linked-split lib w.run_id w.hash_alg 0 c.zero rs entry
          (subst (λ (x : List Record). Linked lib w.run_id w.hash_alg 0 c.zero x) kept c.chain) in
      let records : w'.records ≡ rs =
        sym (ap (λ (x : Writer). x.records) (ok-injective k)) ∙ popped w.records rs entry kept in
      let seq : entry.protected.seq ≡ w'.seq = ap (λ (x : Writer). x.seq) (ok-injective k) in
      let head : entry.protected.prev_hash ≡ w'.head =
        ap (λ (x : Writer). x.head) (ok-injective k) in
      let run = ap (λ (x : Writer). x.run_id) (ok-injective k) in
      let alg = ap (λ (x : Writer). x.hash_alg) (ok-injective k) in
      record {
        zero = c.zero;
        from_zero = ap zero_hash (sym alg) ∙ c.from_zero;
        chain = Linked-cast lib 0 w'.records run alg refl (
            subst (λ (x : List Record). Linked lib w.run_id w.hash_alg 0 c.zero x) (sym records)
              chain);
        counted = omega (arith, seq, link.place, ap length records);
        at_head = sym head ∙ (link.linked ∙ ap (head_of c.zero) (sym records));
      }

  -- Records that are themselves a chain of the run, set in place of the writer's.
  set_records-IsChained :
      (w w' : Writer) (rs : List Record) (zero : String)
      → zero_hash w.hash_alg ≡ ok zero
      → Linked lib w.run_id w.hash_alg 0 zero rs
      → set_records w rs ≡ ok w'
      → IsChained w'
  unfolding set_records
  set_records-IsChained w w' [] zero z l h =
      let (found, a, k) = >>=-eq-ok (zero_hash w.hash_alg) _ h in
      subst (λ (x : Writer). IsChained x) (ok-injective k)
        (record { zero = found; from_zero = a; chain = tt; counted = refl; at_head = refl })
  set_records-IsChained w w' (first ∷ rest) zero z l h =
      subst (λ (x : Writer). IsChained x) (ok-injective h)
        (record {
          zero = zero;
          from_zero = z;
          chain = l;
          counted = omega (arith, Linked-last lib w.run_id w.hash_alg 0 zero first rest l);
          at_head = sym (head_of-last zero first rest);
        })

  -- The writers that a client can reach: by `seal` on a document of the run, by `revert` on the last
  -- of the kept records and by the setter on a chain of the run, beside `start`, `append` and `end`.
  pub data Reached (agent : Signers) (delegation : Delegation) (run_id : String)
      : Writer → Type 0 where
    created :
        {w : Writer} → new_writer agent delegation run_id ≡ ok w → Reached agent delegation run_id w
    started :
        {w w' : Writer} (parent : Option (Dict String)) (f : Fields) (entry : Record)
        → Reached agent delegation run_id w
        → start lib w parent f ≡ ok (w', entry)
        → Reached agent delegation run_id w'
    appended :
        {w w' : Writer} (kind : String) (f : Fields) (entry : Record)
        → Reached agent delegation run_id w
        → append lib w kind f ≡ ok (w', entry)
        → Reached agent delegation run_id w'
    ended :
        {w w' : Writer} (f : Fields) (entry : Record)
        → Reached agent delegation run_id w
        → finish lib w f ≡ ok (w', entry)
        → Reached agent delegation run_id w'
    sealed :
        {w w' : Writer} (doc : Doc) (entry : Record)
        → Reached agent delegation run_id w
        → doc.run_id ≡ w.run_id
        → doc.hash_alg ≡ w.hash_alg
        → seal_doc lib w doc ≡ ok (w', entry)
        → Reached agent delegation run_id w'
    reverted :
        {w w' : Writer} (rs : List Record) (entry : Record)
        → Reached agent delegation run_id w
        → w.records ≡ rs ++ entry ∷ []
        → revert w entry true ≡ ok w'
        → Reached agent delegation run_id w'
    replaced :
        {w w' : Writer} (rs : List Record) (zero : String)
        → Reached agent delegation run_id w
        → zero_hash w.hash_alg ≡ ok zero
        → Linked lib w.run_id w.hash_alg 0 zero rs
        → set_records w rs ≡ ok w'
        → Reached agent delegation run_id w'

  start-IsChained :
      (w w' : Writer) (parent : Option (Dict String)) (f : Fields) (entry : Record)
      → start lib w parent f ≡ ok (w', entry)
      → IsChained w
      → IsChained w'
  unfolding start
  start-IsChained w w' parent f entry h c =
      let (k, p) =
        >>-eq-ok (raise_if (not (nat_eq w.seq 0)) (value_error "run already started")) _ h in
      let (binding, q, r) = >>=-eq-ok (start_binding lib w.delegation parent) _ k in
      append-IsChained w w' "run_start" _ entry r c

  finish-IsChained :
      (w w' : Writer) (f : Fields) (entry : Record)
      → finish lib w f ≡ ok (w', entry)
      → IsChained w
      → IsChained w'
  unfolding finish
  finish-IsChained w w' f entry h c =
      let ((v, e), p, q) =
        >>=-eq-ok (append lib w "run_end" (record f { target = run_target lib })) _ h in
      let k = append-IsChained w v "run_end" _ e p c in
      rw (← ap (λ (x : Writer × Record). x.0) (ok-injective q)) (record {
        zero = k.zero;
        from_zero = k.from_zero;
        chain = k.chain;
        counted = k.counted;
        at_head = k.at_head;
      })

  -- The records of a writer that `RunWriter(…)` made are a hash chain of its run from the zero hash
  -- and seq 0 up to its head and seq, behind any sequence of successful calls of `start`, `append`
  -- and `end`, of `seal` on documents of the run's id and algorithm, of `revert` on the last of the
  -- kept records, and of the setter of `records` on a chain of the run from the zero hash. A writer
  -- of `resume`, and one on which the setter forks the chain, is not among them.
  pub Reached-IsChained :
      (agent : Signers) (delegation : Delegation) (run_id : String) {w : Writer}
      → Reached agent delegation run_id w
      → IsChained w
  Reached-IsChained agent delegation run_id (created {w} h) =
      new_writer-IsChained agent delegation run_id w h
  Reached-IsChained agent delegation run_id (started {w} {w'} parent f entry r h) =
      start-IsChained w w' parent f entry h (Reached-IsChained agent delegation run_id r)
  Reached-IsChained agent delegation run_id (appended {w} {w'} kind f entry r h) =
      append-IsChained w w' kind f entry h (Reached-IsChained agent delegation run_id r)
  Reached-IsChained agent delegation run_id (ended {w} {w'} f entry r h) =
      finish-IsChained w w' f entry h (Reached-IsChained agent delegation run_id r)
  Reached-IsChained agent delegation run_id (sealed {w} {w'} doc entry r run alg h) =
      IsStep-IsChained w w' doc entry (seal_doc-IsStep lib w w' doc entry h) run alg
        (Reached-IsChained agent delegation run_id r)
  Reached-IsChained agent delegation run_id (reverted {w} {w'} rs entry r kept h) =
      revert-IsChained w w' rs entry kept h (Reached-IsChained agent delegation run_id r)
  Reached-IsChained agent delegation run_id (replaced {w} {w'} rs zero r z l h) =
      set_records-IsChained w w' rs zero z l h
