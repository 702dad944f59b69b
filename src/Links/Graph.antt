-- ===== src/Links/Graph.antt =====
-- The relation that the part_of edges make, and what one more edge does to it.
use knowledgebase_storage.Common.{String, ap, subst, ◌⊎◌, inl, inr, List, ◌∷◌, Memᴰ}
use mathlib.Core.Path.{subst₂}
use mathlib.Core.List.Memᴰ
use knowledgebase_storage.Links.{Edge}

-- `y` is reached from `x` along the edges, which lead from a part to what it is part of.
pub data Up (es : List Edge) : String → String → Type 0 where
  here : {x : String} → Up es x x
  step : {x y z : String} → Memᴰ (x, y) es → Up es y z → Up es x z

pub Up-trans : (es : List Edge) {x y z : String} → Up es x y → Up es y z → Up es x z
Up-trans es here q = q
Up-trans es (step m p) q = step m (Up-trans es p q)

abbrev pub Includes : List Edge → List Edge → Type 0
Includes es fs = (x y : String) → Memᴰ (x, y) es → Memᴰ (x, y) fs

pub Up-Includes : (es fs : List Edge) → Includes es fs → {x y : String} → Up es x y → Up fs x y
Up-Includes es fs into here = here
Up-Includes es fs into (step {x} {y} m p) = step (into x y m) (Up-Includes es fs into p)

-- No project is part of itself, directly or through others.
abbrev pub Acyclic : List Edge → Type 0
Acyclic es = (x y : String) → Memᴰ (x, y) es → ¬ Up es y x

pub Acyclic-Includes : (es fs : List Edge) → Includes es fs → Acyclic fs → Acyclic es
Acyclic-Includes es fs into free x y m p = free x y (into x y m) (Up-Includes es fs into p)

module _ (es : List Edge) (s t : String) where
  -- a way that may use one more edge avoids it, or goes up to it and on from it
  Up-split : {x y : String} → Up ((s, t) ∷ es) x y → Up es x y ⊎ (Up es x s × Up es t y)
  Up-split here = inl here
  Up-split (step {x} {y} {z} m p) = elim (Up-split p) [
    | inl q ↦ elim (Memᴰ.cases_cons m) [
      | inl e ↦ inr (
        subst (λ w. Up es x w) (ap (λ (f : Edge). f.0) e) here,
        subst (λ w. Up es w z) (ap (λ (f : Edge). f.1) e) q,
      )
      | inr n ↦ inl (step n q)
    ]
    | inr (q, r) ↦ elim (Memᴰ.cases_cons m) [
      | inl e ↦ inr (subst (λ w. Up es x w) (ap (λ (f : Edge). f.0) e) here, r)
      | inr n ↦ inr (step n q, r)
    ]
  ]

  -- one more edge makes no cycle where its end does not lead back to its beginning
  pub Acyclic-cons : Acyclic es → ¬ Up es t s → Acyclic ((s, t) ∷ es)
  Acyclic-cons free back x y m p = elim (Memᴰ.cases_cons m) [
    | inl e ↦
        let q =
          subst₂ (λ v w. Up ((s, t) ∷ es) w v) (ap (λ (f : Edge). f.0) e) (ap (λ (f : Edge). f.1) e)
            p in
        elim (Up-split q) [ inl r ↦ back r | inr (r, _) ↦ back r ]
    | inr n ↦ elim (Up-split p) [
      | inl r ↦ free x y n r
      | inr (r, q) ↦ back (Up-trans es q (step n r))
    ]
  ]
