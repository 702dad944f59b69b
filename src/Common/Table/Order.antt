-- ===== src/Common/Table/Order.antt =====
-- The head of an ordered query is a row that passes the test, and none that passes comes before it.
use knowledgebase_storage.Common.Tests.{Bool-cases}
use knowledgebase_storage.Common.Lists.{All, keep}
use knowledgebase_storage.Common.Table.{insert_by, order_by, select}
use knowledgebase_storage.Common.Table.Laws.{select_passes}
use mathlib.Core.Path.{◌≡◌, refl, sym, subst}
use mathlib.Core.Logic.{inl, inr}
use mathlib.Core.Bool.{Bool, true, false}
use mathlib.Core.List.{List, [], ◌∷◌, Memᴰ}

pub record IsStrictOrder {ℓ} {A : Type ℓ} (before : A → A → Bool) : Type ℓ where
  pub irrefl : (a : A) → before a a ≡ false
  pub asym : (a b : A) → before a b ≡ true → before b a ≡ false
  pub neg_trans : (a b c : A) → before a b ≡ false → before b c ≡ false → before a c ≡ false

-- No row of the list comes before `x`.
abbrev pub IsLeast {ℓ} : {A : Type ℓ} → (A → A → Bool) → A → List A → Type 0
IsLeast before x xs = All (λ k. before k x ≡ false) xs

-- The head of the list is least.
abbrev pub HeadIsLeast {ℓ} : {A : Type ℓ} → (A → A → Bool) → List A → Type 0
HeadIsLeast before [] = Unit
HeadIsLeast before (x ∷ xs) = IsLeast before x xs

module _ {ℓ} {A : Type ℓ} (before : A → A → Bool) (o : IsStrictOrder before) where
  IsLeast-trans :
      (x y : A) (xs : List A) → before y x ≡ false → IsLeast before y xs → IsLeast before x xs
  IsLeast-trans x y [] h least = tt
  IsLeast-trans x y (k ∷ ks) h least = (o.neg_trans k y x least.0 h, IsLeast-trans x y ks h least.1)

  IsLeast-insert_by :
      (x y : A) (ys : List A)
      → before x y ≡ false
      → IsLeast before y ys
      → IsLeast before y (insert_by before x ys)
  unfolding insert_by
  IsLeast-insert_by x y [] h least = (h, tt)
  IsLeast-insert_by x y (k ∷ ks) h least = elim (Bool-cases (before k x)) [
    | inl e ↦ rw e (least.0, IsLeast-insert_by x y ks h least.1)
    | inr e ↦ rw e (h, least)
  ]

  HeadIsLeast-insert_by :
      (x : A) (ys : List A) → HeadIsLeast before ys → HeadIsLeast before (insert_by before x ys)
  unfolding insert_by
  HeadIsLeast-insert_by x [] h = tt
  HeadIsLeast-insert_by x (y ∷ ys) h = elim (Bool-cases (before y x)) [
    | inl e ↦ rw e (IsLeast-insert_by x y ys (o.asym y x e) h)
    | inr e ↦ rw e (e, IsLeast-trans x y ys e h)
  ]

  pub HeadIsLeast-order_by : (xs : List A) → HeadIsLeast before (order_by before xs)
  unfolding order_by
  HeadIsLeast-order_by [] = tt
  HeadIsLeast-order_by (x ∷ xs) =
      HeadIsLeast-insert_by x (order_by before xs) (HeadIsLeast-order_by xs)

module _ {ℓ κ} {A : Type ℓ} (P : A → Type κ) where
  All-insert_by_back :
      (before : A → A → Bool) (x : A) (xs : List A) → All P (insert_by before x xs) → P x × All P xs
  unfolding insert_by
  All-insert_by_back before x [] all = (all.0, tt)
  All-insert_by_back before x (y ∷ ys) all = elim (Bool-cases (before y x)) [
    | inl e ↦
        let moved : P y × All P (insert_by before x ys) = rw (e, insert_by) at all in
        let (p, rest) = All-insert_by_back before x ys moved.1 in (p, (moved.0, rest))
    | inr e ↦ rw (e, insert_by) at all
  ]

  -- what holds of the ordered rows holds of the rows
  pub All-order_by_back :
      (before : A → A → Bool) (xs : List A) → All P (order_by before xs) → All P xs
  unfolding order_by
  All-order_by_back before [] all = tt
  All-order_by_back before (x ∷ xs) all =
      let (p, rest) = All-insert_by_back before x (order_by before xs) all in
      (p, All-order_by_back before xs rest)

  pub All-keep_back :
      (test : A → Bool) (xs : List A) → All P (keep test xs) → All (λ x. test x ≡ true → P x) xs
  unfolding keep
  All-keep_back test [] all = tt
  All-keep_back test (x ∷ xs) all = elim (Bool-cases (test x)) [
    | inl e ↦
        let moved : P x × All P (keep test xs) = rw (e, keep) at all in
        (λ _. moved.0, All-keep_back test xs moved.1)
    | inr e ↦
        let moved : All P (keep test xs) = rw (e, keep) at all in
        (λ h. absurd (cc (h, e)), All-keep_back test xs moved)
  ]

module _ {ℓ} {A : Type ℓ} where
  None-passes :
      (test : A → Bool) (xs : List A)
      → All (λ x. test x ≡ true → ⊥) xs
      → All (λ x. test x ≡ false) xs
  None-passes test [] none = tt
  None-passes test (x ∷ xs) none = elim (Bool-cases (test x)) [
    | inl e ↦ absurd (none.0 e)
    | inr e ↦ (e, None-passes test xs none.1)
  ]

  -- a query that returns nothing: no row passes its test
  pub select_nothing :
      (test : A → Bool) (before : A → A → Bool) (xs : List A)
      → select test before xs ≡ []
      → All (λ x. test x ≡ false) xs
  unfolding select
  select_nothing test before xs h = None-passes test xs (
      All-keep_back (λ _. ⊥) test xs
        (All-order_by_back (λ _. ⊥) before (keep test xs) (subst (All (λ _. ⊥)) (sym h) tt)))

  All-Memᴰ : (xs ys : List A) → ((x : A) → Memᴰ x xs → Memᴰ x ys) → All (λ x. Memᴰ x ys) xs
  All-Memᴰ [] ys into = tt
  All-Memᴰ (x ∷ xs) ys into =
      (into x (Memᴰ.head refl), All-Memᴰ xs ys (λ y m. into y (Memᴰ.tail m)))

  -- The first row of a query: it is a row, it passes the test, and no row that passes comes before it.
  pub select_first :
      (test : A → Bool) (before : A → A → Bool) (xs : List A) (x : A) (rest : List A)
      → IsStrictOrder before
      → select test before xs ≡ x ∷ rest
      → Memᴰ x xs × (test x ≡ true) × All (λ k. test k ≡ true → before k x ≡ false) xs
  select_first test before xs x rest o h =
      let rows = subst (All (λ y. Memᴰ y xs × (test y ≡ true))) h (
        select_passes (λ y. Memᴰ y xs) test before (λ y. test y ≡ true) xs (λ y e. e)
          (All-Memᴰ xs xs (λ y m. m))) in
      (rows.0.0, rows.0.1, least)
    where
      ordered : order_by before (keep test xs) ≡ x ∷ rest
      ordered = unfold select in h

      first_least : IsLeast before x (x ∷ rest)
      first_least = (
        o.irrefl x,
        subst (HeadIsLeast before) ordered (HeadIsLeast-order_by before o (keep test xs)),
      )

      least : All (λ k. test k ≡ true → before k x ≡ false) xs
      least =
          All-keep_back (λ k. before k x ≡ false) test xs
            (All-order_by_back (λ k. before k x ≡ false) before (keep test xs)
              (subst (IsLeast before x) (sym ordered) first_least))
