-- ===== src/Sweeps/Pairs/Combined.antt =====
-- Which pairs `combined` of backend/services/background.py makes, and which groups of projects it is given.
use mathlib.Core.List.Memᴰ
use knowledgebase_storage.Common.{
  String, ◌≡◌, refl, sym, ap, subst, inl, inr, true, some, List, [], ◌∷◌, ◌++◌, Memᴰ, ◌==◌, eq_iff,
  Bool-cases, contains,
}
use knowledgebase_storage.Common.Dict.{lookup}
use knowledgebase_storage.Common.Members.{mem-append, mem-append_right}
use knowledgebase_storage.Sweeps.Pairs.{
  text_lt, is_nested, Owners, nested_with, nested_groups, pairs_from, pairs_in, combined,
}

mem-pairs_from :
    (a b : String) (held : List String)
    → text_lt a b ≡ true
    → contains held b ≡ true
    → Memᴰ (a, b) (pairs_from a held)
unfolding pairs_from
mem-pairs_from a b [] lt h = absurd (cc)
mem-pairs_from a b (x ∷ xs) lt h = elim (Bool-cases (x == b)) [
  | inl e ↦ let same : x ≡ b = (eq_iff x b).0 e in rw (same, lt) (Memᴰ.head refl)
  | inr e ↦
      let rest : Memᴰ (a, b) (pairs_from a xs) = mem-pairs_from a b xs lt (rw e at h) in
      elim (Bool-cases (text_lt a x)) [ inl f ↦ rw f (Memᴰ.tail rest) | inr f ↦ rw f rest ]
]

mem-pairs_in :
    (a b : String) (held firsts : List String)
    → text_lt a b ≡ true
    → contains firsts a ≡ true
    → contains held b ≡ true
    → Memᴰ (a, b) (pairs_in held firsts)
unfolding pairs_in
mem-pairs_in a b held [] lt h k = absurd (cc)
mem-pairs_in a b held (x ∷ xs) lt h k = elim (Bool-cases (x == a)) [
  | inl e ↦
      let same : x ≡ a = (eq_iff x a).0 e in
      mem-append (a, b) (pairs_from x held) (pairs_in held xs)
        (subst (λ (w : String). Memᴰ (a, b) (pairs_from w held)) (sym same)
          (mem-pairs_from a b held lt k))
  | inr e ↦
      mem-append_right (a, b) (pairs_from x held) (pairs_in held xs)
        (mem-pairs_in a b held xs lt (rw e at h) k)
]

pub mem-combined :
    (a b : String) (held : List String) (groups : List (List String))
    → text_lt a b ≡ true
    → Memᴰ held groups
    → contains held a ≡ true
    → contains held b ≡ true
    → Memᴰ (a, b) (combined groups)
unfolding combined
mem-combined a b held [] lt m h k = absurd (Memᴰ.not-nil m)
mem-combined a b held (g ∷ gs) lt m h k = elim (Memᴰ.cases_cons m) [
  | inl e ↦
      mem-append (a, b) (pairs_in g g) (combined gs)
        (subst (λ (w : List String). Memᴰ (a, b) (pairs_in w w)) e
          (mem-pairs_in a b held held lt h k))
  | inr n ↦ mem-append_right (a, b) (pairs_in g g) (combined gs) (mem-combined a b held gs lt n h k)
]

pub mem-lookup :
    (path : String) (held : List String) (owners : Owners)
    → lookup path owners ≡ some held
    → Memᴰ (path, held) owners
unfolding lookup
mem-lookup path held [] h = absurd (cc)
mem-lookup path held ((name, value) ∷ rest) h = elim (Bool-cases (name == path)) [
  | inl e ↦
      let found : some value ≡ some held = rw (e, lookup) at h in
      let same : name ≡ path = (eq_iff name path).0 e in Memᴰ.head (cc)
  | inr e ↦ Memᴰ.tail (mem-lookup path held rest (rw (e, lookup) at h))
]

mem-nested_with :
    (path other : String) (held outside : List String) (owners : Owners)
    → Memᴰ (other, outside) owners
    → is_nested path other ≡ true
    → Memᴰ (held ++ outside) (nested_with path held owners)
unfolding nested_with
mem-nested_with path other held outside [] m h = absurd (Memᴰ.not-nil m)
mem-nested_with path other held outside ((name, value) ∷ rest) m h = elim (Memᴰ.cases_cons m) [
  | inl e ↦
      let there : is_nested path name ≡ true =
        subst (λ (w : String). is_nested path w ≡ true) (ap (λ (o : String × List String). o.0) e)
          h in
      rw there (Memᴰ.head (ap (λ (o : String × List String). held ++ o.1) e))
  | inr n ↦
      let later = mem-nested_with path other held outside rest n h in
      elim (Bool-cases (is_nested path name)) [
        | inl f ↦ rw f (Memᴰ.tail later)
        | inr f ↦ rw f later
      ]
]

pub mem-nested_groups :
    (path other : String) (held outside : List String) (owners rest : Owners)
    → Memᴰ (path, held) rest
    → Memᴰ (other, outside) owners
    → is_nested path other ≡ true
    → Memᴰ (held ++ outside) (nested_groups owners rest)
unfolding nested_groups
mem-nested_groups path other held outside owners [] m n h = absurd (Memᴰ.not-nil m)
mem-nested_groups path other held outside owners ((name, value) ∷ rest) m n h =
    elim (Memᴰ.cases_cons m) [
      | inl e ↦ mem-append _ (nested_with name value owners) (nested_groups owners rest) (
          subst (λ (o : String × List String). Memᴰ (held ++ outside) (nested_with o.0 o.1 owners))
            e (mem-nested_with path other held outside owners n h))
      | inr k ↦
          mem-append_right _ (nested_with name value owners) (nested_groups owners rest)
            (mem-nested_groups path other held outside owners rest k n h)
    ]
