-- ===== src/Recorder/Upstreams/Routing.antt =====
-- The choice of an upstream (services/recorder/src/sealedrun_recorder/upstreams.py, `Upstreams`).
use sealedrun.Prelude.{
  String, ◌==◌, ◌≡◌, refl, ◌∙◌, false, inl, inr, List, [], ◌∷◌, elem, is_some, Bool-cases, arith,
  eq_iff,
}
use sealedrun.Platform.{Platform}
use sealedrun.Recorder.Upstreams.{Upstream, route, serves, serving, dialects_for, first_of_each}

-- Whether a text is in either list.
elem-first_of_each :
    (d : String) (seen xs : List String)
    → elem d seen ≡ false
    → elem d (first_of_each seen xs) ≡ elem d xs
elem-first_of_each d seen [] fresh = refl
elem-first_of_each d seen (x ∷ xs) fresh = elim (Bool-cases (x == d)) [
  | inl e ↦ ground (arith, eq_iff x d, e, fresh)
  | inr e ↦
      ground (arith, e, fresh, elem-first_of_each d seen xs, elem-first_of_each d (x ∷ seen) xs)
]

module _ (platform : Platform) where
  elem-serving :
      (upstreams : List Upstream) (dialect model : String)
      → elem dialect (serving platform upstreams model)
        ≡ is_some (route platform upstreams dialect model)
  unfolding serving route serves
  elem-serving [] dialect model = refl
  elem-serving (u ∷ us) dialect model = ground (arith, elem-serving us dialect model)

  -- A model is said to be reachable through a dialect exactly where a request of that dialect for
  -- the model is routed to an upstream.
  pub dialects_for-route :
      (upstreams : List Upstream) (dialect model : String)
      → elem dialect (dialects_for platform upstreams model)
        ≡ is_some (route platform upstreams dialect model)
  unfolding dialects_for
  dialects_for-route upstreams dialect model =
      elem-first_of_each dialect [] (serving platform upstreams model) refl
      ∙ elem-serving upstreams dialect model
