-- ===== src/Common/Table/Members.antt =====
-- Which rows are among those that the table operations leave.
use knowledgebase_storage.Common.Tests.{Bool-cases}
use knowledgebase_storage.Common.Lists.{keep}
use knowledgebase_storage.Common.Table.{put, insert_by, order_by}
use mathlib.Core.Path.{◌≡◌, refl, sym, ap, ◌∙◌, subst}
use mathlib.Core.Logic.{inl, inr}
use mathlib.Core.Bool.{Bool, true, false}
use mathlib.Core.List.{List, [], ◌∷◌, Memᴰ}
use mathlib.Core.List.Memᴰ

module _ {ℓ} {A : Type ℓ} where
  -- a row that was put is there, and so is each row that it does not replace
  pub mem-put_self : (same : A → A → Bool) (x : A) (xs : List A) → Memᴰ x (put same x xs)
  unfolding put
  mem-put_self same x [] = Memᴰ.head refl
  mem-put_self same x (y ∷ ys) = elim (Bool-cases (same x y)) [
    | inl e ↦ rw e (Memᴰ.head refl)
    | inr e ↦ rw e (Memᴰ.tail (mem-put_self same x ys))
  ]

  pub mem-put_other :
      (same : A → A → Bool) (x z : A) (xs : List A)
      → same x z ≡ false
      → Memᴰ z xs
      → Memᴰ z (put same x xs)
  unfolding put
  mem-put_other same x z [] h m = absurd (Memᴰ.not-nil m)
  mem-put_other same x z (y ∷ ys) h m = elim (Bool-cases (same x y)) [
    | inl e ↦ rw e (elim (Memᴰ.cases_cons m) [
      | inl f ↦ absurd (cc (e, ap (same x) f, h))
      | inr n ↦ Memᴰ.tail n
    ])
    | inr e ↦ rw e (elim (Memᴰ.cases_cons m) [
      | inl f ↦ Memᴰ.head f
      | inr n ↦ Memᴰ.tail (mem-put_other same x z ys h n)
    ])
  ]

  pub mem-insert_by_self :
      (before : A → A → Bool) (x : A) (xs : List A) → Memᴰ x (insert_by before x xs)
  unfolding insert_by
  mem-insert_by_self before x [] = Memᴰ.head refl
  mem-insert_by_self before x (y ∷ ys) = elim (Bool-cases (before y x)) [
    | inl e ↦ rw e (Memᴰ.tail (mem-insert_by_self before x ys))
    | inr e ↦ rw e (Memᴰ.head refl)
  ]

  pub mem-insert_by :
      (before : A → A → Bool) (x z : A) (xs : List A) → Memᴰ z xs → Memᴰ z (insert_by before x xs)
  unfolding insert_by
  mem-insert_by before x z [] m = absurd (Memᴰ.not-nil m)
  mem-insert_by before x z (y ∷ ys) m = elim (Bool-cases (before y x)) [
    | inl e ↦ rw e (elim (Memᴰ.cases_cons m) [
      | inl f ↦ Memᴰ.head f
      | inr n ↦ Memᴰ.tail (mem-insert_by before x z ys n)
    ])
    | inr e ↦ rw e (Memᴰ.tail m)
  ]

  -- every row is among the ordered ones
  pub mem-order_by :
      (before : A → A → Bool) (z : A) (xs : List A) → Memᴰ z xs → Memᴰ z (order_by before xs)
  unfolding order_by
  mem-order_by before z [] m = m
  mem-order_by before z (x ∷ xs) m = elim (Memᴰ.cases_cons m) [
    | inl f ↦
        subst (λ w. Memᴰ w (insert_by before x (order_by before xs))) (sym f)
          (mem-insert_by_self before x (order_by before xs))
    | inr n ↦ mem-insert_by before x z (order_by before xs) (mem-order_by before z xs n)
  ]

  -- a member of the rows that are kept is a member that passes
  pub mem-keep :
      (test : A → Bool) (z : A) (xs : List A) → Memᴰ z xs → test z ≡ true → Memᴰ z (keep test xs)
  unfolding keep
  mem-keep test z [] m h = absurd (Memᴰ.not-nil m)
  mem-keep test z (y ∷ ys) m h = elim (Memᴰ.cases_cons m) [
    | inl f ↦ rw (ap test (sym f) ∙ h) (Memᴰ.head f)
    | inr n ↦ elim (Bool-cases (test y)) [
      | inl e ↦ rw e (Memᴰ.tail (mem-keep test z ys n h))
      | inr e ↦ rw e (mem-keep test z ys n h)
    ]
  ]

  pub mem-keep_back :
      (test : A → Bool) (z : A) (xs : List A) → Memᴰ z (keep test xs) → Memᴰ z xs × (test z ≡ true)
  unfolding keep
  mem-keep_back test z [] m = absurd (Memᴰ.not-nil m)
  mem-keep_back test z (y ∷ ys) m = elim (Bool-cases (test y)) [
    | inl e ↦
        let n : Memᴰ z (y ∷ keep test ys) = rw (e, keep) at m in
        elim (Memᴰ.cases_cons n) [
          | inl f ↦ (Memᴰ.head f, ap test f ∙ e)
          | inr k ↦ let (i, h) = mem-keep_back test z ys k in (Memᴰ.tail i, h)
        ]
    | inr e ↦
        let n : Memᴰ z (keep test ys) = rw (e, keep) at m in
        let (i, h) = mem-keep_back test z ys n in (Memᴰ.tail i, h)
  ]
