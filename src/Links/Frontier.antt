-- ===== src/Links/Frontier.antt =====
-- The frontier of `would_cycle` in backend/repositories/link.py: its length, and what is seen or waits in it.
use mathlib.Core.List.Memᴰ
use mathlib.Core.Path.{ap₂}
use knowledgebase_storage.Common.{
  ℕ, suc, ◌+◌, ◌≤◌, String, ◌≡◌, sym, ap, subst, ◌⊎◌, inl, inr, true, false, List, [], ◌∷◌, ◌++◌,
  Memᴰ, arith, ◌==◌, eq_iff, if◌then◌else◌, Bool-cases, length, contains,
}
use knowledgebase_storage.Links.{Edge, upward, add}

-- The edges that leave `c`, and the edges that leave a project not seen yet.
pub count_from : String → List Edge → ℕ
count_from c [] = 0
count_from c ((x, y) ∷ es) = let n = count_from c es in if x == c then suc n else n

pub unseen : List String → List Edge → ℕ
unseen seen [] = 0
unseen seen ((x, y) ∷ es) = let n = unseen seen es in if contains seen x then n else suc n

length-add : (x : String) (xs : List String) → length (add x xs) ≤ suc (length xs)
length-add x xs = ground arith

pub length-upward : (es : List Edge) (c : String) → length (upward es c) ≤ count_from c es
unfolding upward count_from
length-upward [] c = omega arith
length-upward ((x, y) ∷ es) c = ground (arith, length-upward es c, length-add y (upward es c))

pub unseen-cons :
    (c : String) (seen : List String) (es : List Edge)
    → contains seen c ≡ false
    → unseen (c ∷ seen) es + count_from c es ≡ unseen seen es
unfolding unseen count_from
unseen-cons c seen [] new = omega arith
unseen-cons c seen ((x, y) ∷ es) new =
    ground (arith, unseen-cons c seen es new, eq_iff c x, eq_iff x c)

pub unseen-le : (es : List Edge) → unseen [] es ≤ length es
unfolding unseen
unseen-le [] = omega arith
unseen-le (e ∷ es) = ground (arith, unseen-le es)

contains-Memᴰ : (xs : List String) (s : String) → contains xs s ≡ true → Memᴰ s xs
contains-Memᴰ [] s h = absurd (cc)
contains-Memᴰ (x ∷ xs) s h = elim (Bool-cases (x == s)) [
  | inl e ↦ Memᴰ.head (sym ((eq_iff x s).0 e))
  | inr e ↦ Memᴰ.tail (contains-Memᴰ xs s (ground arith))
]

mem-add : (y z : String) (xs : List String) → (y ≡ z) ⊎ Memᴰ y xs → Memᴰ y (add z xs)
mem-add y z xs h = elim (Bool-cases (contains xs z)) [
  | inl old ↦ elim h [ inl e ↦ rw (e, old) (contains-Memᴰ xs z old) | inr m ↦ rw old m ]
  | inr new ↦ elim h [ inl e ↦ rw new (Memᴰ.head e) | inr m ↦ rw new (Memᴰ.tail m) ]
]

mem-add_back : (y z : String) (xs : List String) → Memᴰ y (add z xs) → (y ≡ z) ⊎ Memᴰ y xs
mem-add_back y z xs h = elim (Bool-cases (contains xs z)) [
  | inl old ↦ inr (rw old at h)
  | inr new ↦ let m : Memᴰ y (z ∷ xs) = rw new at h in Memᴰ.cases_cons m
]

abbrev pub from : Edge → String
from e = e.0

abbrev pub to : Edge → String
to e = e.1

-- `upward` lists the ends of the edges that leave a project.
pub mem-upward : (es : List Edge) (x y : String) → Memᴰ (x, y) es → Memᴰ y (upward es x)
unfolding upward
mem-upward [] x y m = absurd (Memᴰ.not-nil m)
mem-upward ((v, w) ∷ es) x y m = elim (Memᴰ.cases_cons m) [
  | inl e ↦ rw ((eq_iff v x).1 (sym (ap from e))) (mem-add y w (upward es x) (inl (ap to e)))
  | inr n ↦ elim (Bool-cases (v == x)) [
    | inl h ↦ rw h (mem-add y w (upward es x) (inr (mem-upward es x y n)))
    | inr h ↦ rw h (mem-upward es x y n)
  ]
]

pub mem-upward_back : (es : List Edge) (x y : String) → Memᴰ y (upward es x) → Memᴰ (x, y) es
unfolding upward
mem-upward_back [] x y m = absurd (Memᴰ.not-nil m)
mem-upward_back ((v, w) ∷ es) x y m = elim (Bool-cases (v == x)) [
  | inl h ↦
      let n : Memᴰ y (add w (upward es x)) = rw (h, upward) at m in
      elim (mem-add_back y w (upward es x) n) [
        | inl e ↦ Memᴰ.head (ap₂ (λ (a b : String). (a, b)) (sym ((eq_iff v x).0 h)) e)
        | inr k ↦ Memᴰ.tail (mem-upward_back es x y k)
      ]
  | inr h ↦
      let n : Memᴰ y (upward es x) = rw (h, upward) at m in Memᴰ.tail (mem-upward_back es x y n)
]

-- Seen, or waiting in the frontier.
abbrev Held : List String → List String → String → Type 0
Held seen frontier x = (contains seen x ≡ true) ⊎ Memᴰ x frontier

pub waits_less :
    (v : String) (seen rest : List String) (x : String)
    → contains seen v ≡ true
    → Held seen (v ∷ rest) x
    → Held seen rest x
waits_less v seen rest x old (inl s) = inl s
waits_less v seen rest x old (inr m) = elim (Memᴰ.cases_cons m) [
  | inl e ↦ inl (subst (λ w. contains seen w ≡ true) (sym e) old)
  | inr n ↦ inr n
]

pub waits_more :
    (v : String) (seen more rest : List String) (x : String)
    → Held seen (v ∷ rest) x
    → Held (v ∷ seen) (more ++ rest) x
waits_more v seen more rest x (inl s) = inl (ground arith)
waits_more v seen more rest x (inr m) = elim (Memᴰ.cases_cons m) [
  | inl e ↦ inl (rw ((eq_iff v x).1 (sym e)))
  | inr n ↦ inr (Memᴰ.append_right more n)
]
