-- ===== src/Common/Table/Distinct.antt =====
-- A table whose rows have different identities, as its primary key makes them.
use mathlib.Core.List.Memᴰ
use knowledgebase_storage.Common.{
  ◌≡◌, refl, sym, ap, subst, inl, inr, Bool, Bool-cases, true, false, List, [], ◌∷◌, Memᴰ, All,
}
use knowledgebase_storage.Common.Table.{put}
use knowledgebase_storage.Common.Table.Laws.{All-get, All-members, All-put, All-turn}

module _ {ℓ} {A : Type ℓ} (same : A → A → Bool) where
  abbrev pub IsDistinct : List A → Type 0
  IsDistinct [] = Unit
  IsDistinct (x ∷ xs) = All (λ y. same x y ≡ false) xs × IsDistinct xs

  -- two rows of one identity are one row
  pub distinct_eq :
      (symm : (a b : A) → same a b ≡ true → same b a ≡ true) (xs : List A) (a b : A)
      → IsDistinct xs
      → Memᴰ a xs
      → Memᴰ b xs
      → same a b ≡ true
      → a ≡ b
  distinct_eq symm [] a b d m n h = absurd (Memᴰ.not-nil m)
  distinct_eq symm (x ∷ xs) a b d m n h = elim (Memᴰ.cases_cons m) [
    | inl e ↦ elim (Memᴰ.cases_cons n) [
      | inl f ↦ cc
      | inr f ↦ absurd (
          let apart : same x b ≡ false = All-get (λ y. same x y ≡ false) xs b d.0 f in
          let close : same x b ≡ true = subst (λ z. same z b ≡ true) e h in cc)
    ]
    | inr e ↦ elim (Memᴰ.cases_cons n) [
      | inl f ↦ absurd (
          let apart : same x a ≡ false = All-get (λ y. same x y ≡ false) xs a d.0 e in
          let close : same x a ≡ true = subst (λ z. same z a ≡ true) f (symm a b h) in cc)
      | inr f ↦ distinct_eq symm xs a b d.1 e f h
    ]
  ]

module _ {ℓ κ} {A : Type ℓ} (same : A → A → Bool) (P : A → Type κ) where
  -- what holds of the new row, and of each row of another identity than the one it replaces
  pub All-put_distinct :
      (self : (a : A) → same a a ≡ true) (symm : (a b : A) → same a b ≡ true → same b a ≡ true)
      (row x : A) (xs : List A)
      → ((y : A) → same row y ≡ same x y)
      → IsDistinct same xs
      → Memᴰ x xs
      → P row
      → ((y : A) → Memᴰ y xs → same x y ≡ false → P y)
      → All P (put same row xs)
  unfolding put
  All-put_distinct self symm row x [] e d m p others = absurd (Memᴰ.not-nil m)
  All-put_distinct self symm row x (y ∷ ys) e d m p others = elim (Bool-cases (same x y)) [
    | inl h ↦
        let own = distinct_eq same symm (y ∷ ys) x y d m (Memᴰ.head refl) h in
        rw (e y, h)
          (
            p,
            All-members P ys (λ z n. others z (Memᴰ.tail n) (
                subst (λ w. same w z ≡ false) (sym own)
                  (All-get (λ z. same y z ≡ false) ys z d.0 n))),
          )
    | inr h ↦
        rw (e y, h)
          (
            others y (Memᴰ.head refl) h,
            elim (Memᴰ.cases_cons m) [
              | inl f ↦ absurd (cc (self x, ap (same x) f, h))
              | inr n ↦
                  All-put_distinct self symm row x ys e d.1 n p (λ z k. others z (Memᴰ.tail k))
            ],
          )
  ]

module _ {ℓ} {A : Type ℓ} (same : A → A → Bool) where
  -- a row that is put leaves the identities different
  pub IsDistinct-put :
      (symm : (a b : A) → same a b ≡ true → same b a ≡ true)
      (trans : (a b c : A) → same a b ≡ true → same b c ≡ true → same a c ≡ true) (x : A)
      (xs : List A)
      → IsDistinct same xs
      → IsDistinct same (put same x xs)
  unfolding put
  IsDistinct-put symm trans x [] d = (tt, tt)
  IsDistinct-put symm trans x (y ∷ ys) d = elim (Bool-cases (same x y)) [
    | inl e ↦ rw e (
      All-turn (λ z. same y z ≡ false) (λ z. same x z ≡ false)
          (λ z apart. implied (same x z) (same y z) (λ h. trans y x z (symm x y e) h) apart) ys d.0,
      d.1,
    )
    | inr e ↦ rw e (
      All-put (λ z. same y z ≡ false) same x ys (implied (same y x) (same x y) (symm y x) e) d.0,
      IsDistinct-put symm trans x ys d.1,
    )
  ]
    where
      implied : (p q : Bool) → (p ≡ true → q ≡ true) → q ≡ false → p ≡ false
      implied true q h apart = absurd (cc (h refl, apart))
      implied false q h apart = refl
