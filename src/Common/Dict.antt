-- ===== src/Common/Dict.antt =====
-- Python's `dict` from texts: a list of names with their values, each name once, in the order they came in.
use knowledgebase_storage.Common.{
  String, ◌≡◌, refl, Option, none, some, List, [], ◌∷◌, arith, ◌==◌, eq_iff, if◌then◌else◌,
  Bool-cases, inl, inr,
}

unfoldable pub lookup {ℓ} : {A : Type ℓ} → String → List (String × A) → Option A
lookup key [] = none
lookup key ((name, value) ∷ rest) = if name == key then some value else lookup key rest

unfoldable pub insert {ℓ} : {A : Type ℓ} → String → A → List (String × A) → List (String × A)
insert key value [] = (key, value) ∷ []
insert key value ((name, old) ∷ rest) =
    if name == key then (name, value) ∷ rest else (name, old) ∷ insert key value rest

unfoldable pub remove {ℓ} : {A : Type ℓ} → String → List (String × A) → List (String × A)
remove key [] = []
remove key ((name, value) ∷ rest) =
    if name == key then remove key rest else (name, value) ∷ remove key rest

pub lookup-insert {ℓ} :
    {A : Type ℓ}
    → (other key : String) (value : A) (d : List (String × A))
    → lookup other (insert key value d) ≡ (if key == other then some value else lookup other d)
unfolding lookup insert
lookup-insert other key value [] = refl
lookup-insert other key value ((name, old) ∷ rest) = elim (Bool-cases (name == key)) [
  | inl e ↦ rw e (elim (Bool-cases (key == other)) [
    | inl f ↦ ground (arith, e, f, eq_iff name key, eq_iff key other, eq_iff name other)
    | inr f ↦ ground (arith, e, f, eq_iff name key, eq_iff key other, eq_iff name other)
  ])
  | inr e ↦ ground (
    arith,
    e,
    lookup-insert other key value rest,
    eq_iff name key,
    eq_iff key other,
    eq_iff name other,
  )
]

pub lookup-remove {ℓ} :
    {A : Type ℓ}
    → (other key : String) (d : List (String × A))
    → lookup other (remove key d) ≡ (if key == other then none else lookup other d)
unfolding lookup remove
lookup-remove other key [] = ground arith
lookup-remove other key ((name, old) ∷ rest) =
    ground
      (arith, lookup-remove other key rest, eq_iff name key, eq_iff key other, eq_iff name other)
