-- ===== src/Common/Members.antt =====
-- What is in a list that is made of others, and lists of lists.
use mathlib.Core.List.Memᴰ
use mathlib.Core.List
use knowledgebase_storage.Common.Tests.{Bool-cases}
use knowledgebase_storage.Common.Lists.{contains}
use Prim.Native.String.{String}
use mathlib.Core.Path.{◌≡◌, sym, ap, ◌∙◌}
use mathlib.Core.Logic.{inl, inr}
use mathlib.Core.Bool.{true}
use mathlib.Core.List.{List, [], ◌∷◌, ◌++◌, map, Memᴰ}
use text.Mathlib.Text.{◌==◌}
use text.Mathlib.TextEquality.{eq_iff}

pub mem-append : {A : Type 0} → (x : A) (xs ys : List A) → Memᴰ x xs → Memᴰ x (xs ++ ys)
mem-append x [] ys m = absurd (Memᴰ.not-nil m)
mem-append x (z ∷ zs) ys m = elim (Memᴰ.cases_cons m) [
  | inl e ↦ Memᴰ.head e
  | inr n ↦ Memᴰ.tail (mem-append x zs ys n)
]

pub mem-append_right : {A : Type 0} → (x : A) (xs ys : List A) → Memᴰ x ys → Memᴰ x (xs ++ ys)
mem-append_right x [] ys m = m
mem-append_right x (z ∷ zs) ys m = Memᴰ.tail (mem-append_right x zs ys m)

pub mem-contains : (s : String) (xs : List String) → contains xs s ≡ true → Memᴰ s xs
mem-contains s [] h = absurd (cc)
mem-contains s (x ∷ xs) h = elim (Bool-cases (x == s)) [
  | inl e ↦ Memᴰ.head (sym ((eq_iff x s).0 e))
  | inr e ↦ Memᴰ.tail (mem-contains s xs (rw e at h))
]

pub mem-map : {A B : Type 0} → (f : A → B) (x : A) (xs : List A) → Memᴰ x xs → Memᴰ (f x) (map f xs)
mem-map f x [] m = absurd (Memᴰ.not-nil m)
mem-map f x (y ∷ ys) m = elim (Memᴰ.cases_cons m) [
  | inl e ↦ Memᴰ.head (ap f e)
  | inr n ↦ Memᴰ.tail (mem-map f x ys n)
]

pub flatten-snoc :
    {A : Type 0} (xss : List (List A)) (xs : List A)
    → List.flatten (xss ++ (xs ∷ [])) ≡ List.flatten xss ++ xs
unfolding List.flatten
flatten-snoc [] xs = List.append-nil xs
flatten-snoc (ys ∷ yss) xs =
    ap (λ t. ys ++ t) (flatten-snoc yss xs) ∙ sym (List.append_assoc ys (List.flatten yss) xs)
