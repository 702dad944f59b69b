-- ===== src/Common/Table/Laws.antt =====
-- What the table operations keep of a predicate that holds of every row.
use knowledgebase_storage.Common.Tests.{Bool-cases}
use knowledgebase_storage.Common.Lists.{All, keep, All-keep}
use knowledgebase_storage.Common.Table.{
  first, update_where, delete_where, put, insert_by, order_by, select,
}
use mathlib.Core.Path.{◌≡◌, refl, sym, subst}
use mathlib.Core.Logic.{inl, inr}
use mathlib.Core.Bool.{Bool, true, false, not}
use mathlib.Core.Option.{none, some}
use mathlib.Core.List.{List, [], ◌∷◌, ◌++◌, Memᴰ}
use mathlib.Core.List.Memᴰ
use native.Mathlib.Omega.{arith}

module _ {ℓ} {A : Type ℓ} where
  -- the row that `first` returns passes the test
  pub first_passes :
      (test : A → Bool) (xs : List A) {x : A} → first test xs ≡ some x → test x ≡ true
  unfolding first
  first_passes test [] {x = x} h = cc
  first_passes test (y ∷ ys) {x = x} h = ground (arith, first_passes test ys {x = x})

  pub first-none :
      (test : A → Bool) (xs : List A) → first test xs ≡ none → All (λ x. test x ≡ false) xs
  unfolding first
  first-none test [] h = tt
  first-none test (y ∷ ys) h = ground (arith, first-none test ys)

module _ {ℓ κ} {A : Type ℓ} (P : A → Type κ) where
  pub All-first : (test : A → Bool) (xs : List A) {x : A} → All P xs → first test xs ≡ some x → P x
  unfolding first
  All-first test [] all h = absurd (cc)
  All-first test (y ∷ ys) {x = x} all h = elim (Bool-cases (test y)) [
    | inl e ↦ subst P (ground arith) all.0
    | inr e ↦ All-first test ys all.1 (ground arith)
  ]

  pub All-put : (same : A → A → Bool) (x : A) (xs : List A) → P x → All P xs → All P (put same x xs)
  unfolding put
  All-put same x [] p all = (p, tt)
  All-put same x (y ∷ ys) p all = elim (Bool-cases (same x y)) [
    | inl e ↦ rw e (p, all.1)
    | inr e ↦ rw e (all.0, All-put same x ys p all.1)
  ]

  pub All-update_where :
      (test : A → Bool) (change : A → A) (xs : List A)
      → ((x : A) → test x ≡ true → P x → P (change x))
      → All P xs
      → All P (update_where test change xs)
  unfolding update_where
  All-update_where test change [] keeps all = tt
  All-update_where test change (x ∷ xs) keeps all = elim (Bool-cases (test x)) [
    | inl e ↦ rw e (keeps x e all.0, All-update_where test change xs keeps all.1)
    | inr e ↦ rw e (all.0, All-update_where test change xs keeps all.1)
  ]

  pub All-insert_by :
      (before : A → A → Bool) (x : A) (xs : List A) → P x → All P xs → All P (insert_by before x xs)
  unfolding insert_by
  All-insert_by before x [] p all = (p, tt)
  All-insert_by before x (y ∷ ys) p all = elim (Bool-cases (before y x)) [
    | inl e ↦ rw e (all.0, All-insert_by before x ys p all.1)
    | inr e ↦ rw e (p, all)
  ]

  pub All-order_by : (before : A → A → Bool) (xs : List A) → All P xs → All P (order_by before xs)
  unfolding order_by
  All-order_by before [] all = tt
  All-order_by before (x ∷ xs) all =
      All-insert_by before x (order_by before xs) all.0 (All-order_by before xs all.1)

  pub All-select :
      (test : A → Bool) (before : A → A → Bool) (xs : List A)
      → All P xs
      → All P (select test before xs)
  unfolding select
  All-select test before xs all = All-order_by before (keep test xs) (All-keep P test xs all)

  pub All-append : (xs ys : List A) → All P xs → All P ys → All P (xs ++ ys)
  All-append [] ys a b = b
  All-append (x ∷ xs) ys a b = (a.0, All-append xs ys a.1 b)

  pub All-delete_where : (test : A → Bool) (xs : List A) → All P xs → All P (delete_where test xs)
  unfolding delete_where
  All-delete_where test xs all = All-keep P (λ x. not (test x)) xs all

module _ {ℓ κ} {A : Type ℓ} (P : A → Type κ) where
  -- what holds of all elements holds of a member
  pub All-get : (xs : List A) (x : A) → All P xs → Memᴰ x xs → P x
  All-get [] x all m = absurd (Memᴰ.not-nil m)
  All-get (y ∷ ys) x all m = elim (Memᴰ.cases_cons m) [
    | inl e ↦ subst P (sym e) all.0
    | inr n ↦ All-get ys x all.1 n
  ]

  pub All-turn {κ'} :
      (Q : A → Type κ') → ((x : A) → P x → Q x) → (xs : List A) → All P xs → All Q xs
  All-turn Q f [] all = tt
  All-turn Q f (x ∷ xs) all = (f x all.0, All-turn Q f xs all.1)

  -- what holds of every member holds of all elements
  pub All-members : (xs : List A) → ((x : A) → Memᴰ x xs → P x) → All P xs
  All-members [] f = tt
  All-members (x ∷ xs) f = (f x (Memᴰ.head refl), All-members xs (λ y m. f y (Memᴰ.tail m)))

module _ {ℓ κ} {A : Type ℓ} (P : A → Type κ) where
  keep_passes :
      (test : A → Bool) (Q : A → Type 0) (xs : List A)
      → ((x : A) → test x ≡ true → Q x)
      → All P xs
      → All (λ x. P x × Q x) (keep test xs)
  unfolding keep
  keep_passes test Q [] q all = tt
  keep_passes test Q (x ∷ xs) q all = elim (Bool-cases (test x)) [
    | inl e ↦ rw e ((all.0, q x e), keep_passes test Q xs q all.1)
    | inr e ↦ rw e (keep_passes test Q xs q all.1)
  ]

  -- every row that a query returns passes its test
  pub select_passes :
      (test : A → Bool) (before : A → A → Bool) (Q : A → Type 0) (xs : List A)
      → ((x : A) → test x ≡ true → Q x)
      → All P xs
      → All (λ x. P x × Q x) (select test before xs)
  unfolding select
  select_passes test before Q xs q all =
      All-order_by (λ x. P x × Q x) before (keep test xs) (keep_passes test Q xs q all)

module _ {ℓ κ} {A : Type ℓ} (P Q : A → Type κ) where
  -- an update turns one predicate into another
  pub All-update_where_turn :
      (test : A → Bool) (change : A → A) (xs : List A)
      → ((x : A) → test x ≡ true → P x → Q (change x))
      → ((x : A) → test x ≡ false → P x → Q x)
      → All P xs
      → All Q (update_where test change xs)
  unfolding update_where
  All-update_where_turn test change [] moved stays all = tt
  All-update_where_turn test change (x ∷ xs) moved stays all = elim (Bool-cases (test x)) [
    | inl e ↦ rw e (moved x e all.0, All-update_where_turn test change xs moved stays all.1)
    | inr e ↦ rw e (stays x e all.0, All-update_where_turn test change xs moved stays all.1)
  ]

module _ {ℓ} {A : Type ℓ} where
  -- the row that was put is the first one that passes a test which tells it from the rows it left
  pub first-put :
      (same : A → A → Bool) (test : A → Bool) (x : A) (xs : List A)
      → test x ≡ true
      → ((y : A) → same x y ≡ false → test y ≡ false)
      → first test (put same x xs) ≡ some x
  unfolding first put
  first-put same test x [] h other = rw h refl
  first-put same test x (y ∷ ys) h other = elim (Bool-cases (same x y)) [
    | inl e ↦ rw (e, h) refl
    | inr e ↦ rw (e, other y e) (first-put same test x ys h other)
  ]
