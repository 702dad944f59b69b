-- ===== src/Common/Lists.antt =====
-- Lists measured by native numbers, under the library's names.
use Prim.Native.Nat.{ℕ, zero, suc, ◌+◌, ◌-◌}
use Prim.Native.String.{String}
use Prim.Native.String as Text
use mathlib.Core.Path.{◌≡◌, refl, ap}
use mathlib.Core.Logic.{inl, inr}
use mathlib.Core.Bool.{Bool, true, false, ◌||◌}
use mathlib.Core.List.{List, [], ◌∷◌, ◌++◌}
use native.Mathlib.Omega.{arith}
use text.Mathlib.Text.{◌==◌}
use knowledgebase_storage.Common.Tests.{if◌then◌else◌, Bool-cases}

module _ {ℓ} {A : Type ℓ} where
  abbrev pub length : List A → ℕ
  length [] = 0
  length (x ∷ xs) = suc (length xs)

  abbrev pub take : ℕ → List A → List A
  take zero xs = []
  take (suc n) [] = []
  take (suc n) (x ∷ xs) = x ∷ take n xs

  abbrev pub drop : ℕ → List A → List A
  drop zero xs = xs
  drop (suc n) [] = []
  drop (suc n) (x ∷ xs) = drop n xs

  pub take-append-drop : (n : ℕ) (xs : List A) → take n xs ++ drop n xs ≡ xs
  take-append-drop zero xs = refl
  take-append-drop (suc n) [] = refl
  take-append-drop (suc n) (x ∷ xs) = ap (λ t. x ∷ t) (take-append-drop n xs)

  pub length-drop : (n : ℕ) (xs : List A) → length (drop n xs) ≡ length xs - n
  length-drop zero xs = omega arith
  length-drop (suc n) [] = omega arith
  length-drop (suc n) (x ∷ xs) = omega (arith, length-drop n xs)

  pub drop-append : (xs ys : List A) → drop (length xs) (xs ++ ys) ≡ ys
  drop-append [] ys = refl
  drop-append (x ∷ xs) ys = drop-append xs ys

  pub length-append : (xs ys : List A) → length (xs ++ ys) ≡ length xs + length ys
  length-append [] ys = omega arith
  length-append (x ∷ xs) ys = omega (arith, length-append xs ys)

  -- A predicate of every element.
  abbrev pub All {κ} : (A → Type κ) → List A → Type κ
  All P [] = Unit
  All P (x ∷ xs) = P x × All P xs

  -- `[x for x in xs if test(x)]`
  unfoldable pub keep : (A → Bool) → List A → List A
  keep test [] = []
  keep test (x ∷ xs) = let rest = keep test xs in if test x then x ∷ rest else rest

  pub keep-append :
      (test : A → Bool) (xs ys : List A) → keep test (xs ++ ys) ≡ keep test xs ++ keep test ys
  unfolding keep
  keep-append test [] ys = refl
  keep-append test (x ∷ xs) ys = elim (Bool-cases (test x)) [
    | inl e ↦ rw e (ap (λ l. x ∷ l) (keep-append test xs ys))
    | inr e ↦ rw e (keep-append test xs ys)
  ]

  pub All-keep {κ} :
      (P : A → Type κ) (test : A → Bool) (xs : List A) → All P xs → All P (keep test xs)
  unfolding keep
  All-keep P test [] h = tt
  All-keep P test (x ∷ xs) h = ground (arith, All-keep P test xs h.1)

  pub All-unit : (xs : List A) → All (λ _. Unit {0}) xs
  All-unit [] = tt
  All-unit (x ∷ xs) = (tt, All-unit xs)

  pub All-take {κ} : (P : A → Type κ) (n : ℕ) (xs : List A) → All P xs → All P (take n xs)
  All-take P zero xs all = tt
  All-take P (suc n) [] all = tt
  All-take P (suc n) (x ∷ xs) all = (all.0, All-take P n xs all.1)

-- `not xs`
abbrev pub is_empty {ℓ} : {A : Type ℓ} → List A → Bool
is_empty [] = true
is_empty (x ∷ xs) = false

-- `s in xs`
abbrev pub contains : List String → String → Bool
contains [] s = false
contains (x ∷ xs) s = x == s || contains xs s

-- `s[:n]`
unfoldable pub take_text : ℕ → String → String
take_text zero s = ""
take_text (suc n) Text.[] = ""
take_text (suc n) (Text.◌∷◌ c s) = Text.◌∷◌ c (take_text n s)
