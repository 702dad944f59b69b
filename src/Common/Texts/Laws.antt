-- ===== src/Common/Texts/Laws.antt =====
-- The parts of a text: how long they are, and that nothing is lost.
use Prim.Native.Nat.{ℕ, zero, suc, ◌+◌, ◌-◌, ◌*◌, ◌≤◌, ◌<◌}
use Prim.Native.String.{String, ◌++◌ as ◌<>◌}
use Prim.Native.String as Text
use mathlib.Core.Path.{◌≡◌, refl, sym, ap, ◌∙◌}
use mathlib.Core.Logic.{inl, inr}
use mathlib.Core.Bool.{false}
use mathlib.Core.List.{List, [], ◌∷◌, ◌++◌}
use native.Mathlib.Omega.{arith}
use text.Mathlib.Text.{◌==◌}
use text.Mathlib.TextEquality.{eq_iff}
use text.Mathlib.TextLemmas.{nil-append, cons-append, append_assoc}
use knowledgebase_storage.Common.Tests.{Bool-cases}
use knowledgebase_storage.Common.Lists.{take_text, length, All}
use knowledgebase_storage.Common.Texts.{text_length, drop_text, all_text, join, pieces}

pub take-drop : (n : ℕ) (s : String) → take_text n s <> drop_text n s ≡ s
unfolding take_text drop_text
take-drop zero s = nil-append s
take-drop (suc n) Text.[] = nil-append ""
take-drop (suc n) (Text.◌∷◌ c s) =
    cons-append c (take_text n s) (drop_text n s) ∙ ap (λ t. Text.◌∷◌ c t) (take-drop n s)

pub length-take : (n : ℕ) (s : String) → text_length (take_text n s) ≤ n
unfolding take_text text_length
length-take zero s = omega arith
length-take (suc n) Text.[] = omega arith
length-take (suc n) (Text.◌∷◌ c s) = omega (arith, length-take n s)

pub length-drop : (n : ℕ) (s : String) → text_length (drop_text n s) ≡ text_length s - n
unfolding drop_text text_length
length-drop zero s = omega arith
length-drop (suc n) Text.[] = omega arith
length-drop (suc n) (Text.◌∷◌ c s) = omega (arith, length-drop n s)

pub length-zero : (s : String) → text_length s ≡ 0 → s ≡ ""
unfolding text_length
length-zero Text.[] h = refl
length-zero (Text.◌∷◌ c s) h = absurd (omega arith)

-- the pieces are the text, in order, where there are rounds enough and each takes something
pub pieces_all :
    (rounds size : ℕ) (s : String)
    → 0 < size
    → text_length s ≤ rounds
    → all_text (pieces rounds size s) ≡ s
unfolding pieces all_text
pieces_all zero size s p h = sym (length-zero s (omega arith))
pieces_all (suc rounds) size s p h = elim (Bool-cases (s == "")) [
  | inl e ↦ rw e (sym ((eq_iff s "").0 e))
  | inr e ↦
      rw (e, pieces_all rounds size (drop_text size s) p (omega (arith, length-drop size s)))
        (take-drop size s)
]

pub pieces_short :
    (rounds size : ℕ) (s : String) → All (λ p. text_length p ≤ size) (pieces rounds size s)
unfolding pieces
pieces_short zero size s = tt
pieces_short (suc rounds) size s = elim (Bool-cases (s == "")) [
  | inl e ↦ rw e tt
  | inr e ↦ rw e (length-take size s, pieces_short rounds size (drop_text size s))
]

pub all_text-append : (ss ts : List String) → all_text (ss ++ ts) ≡ all_text ss <> all_text ts
unfolding all_text
all_text-append [] ts = sym (nil-append (all_text ts))
all_text-append (s ∷ ss) ts =
    ap (λ t. s <> t) (all_text-append ss ts) ∙ sym (append_assoc s (all_text ss) (all_text ts))

pub text_length-append : (s t : String) → text_length (s <> t) ≡ text_length s + text_length t
unfolding text_length
text_length-append Text.[] t = ap text_length (nil-append t) ∙ (omega arith)
text_length-append (Text.◌∷◌ c s) t =
    ap text_length (cons-append c s t) ∙ (omega (arith, text_length-append s t))

pub length-ne-zero : (s : String) → (s == "") ≡ false → 0 < text_length s
unfolding text_length
length-ne-zero Text.[] h = absurd (cc)
length-ne-zero (Text.◌∷◌ c s) h = omega arith

-- All pieces but the last are full.
pub pieces_count :
    (rounds size : ℕ) (s : String)
    → 0 < size
    → length (pieces rounds size s) * size < text_length s + size
unfolding pieces
pieces_count zero size s p = grind arith
pieces_count (suc rounds) size s p = elim (Bool-cases (s == "")) [
  | inl e ↦ rw e (grind arith)
  | inr e ↦ rw e (
      one_more (length (pieces rounds size (drop_text size s))) size (text_length s)
        (text_length (drop_text size s)) (length-ne-zero s e) (length-drop size s)
        (pieces_count rounds size (drop_text size s) p))
]
  where
    one_more :
        (n size l k : ℕ) → 0 < l → k ≡ l - size → n * size < k + size → suc n * size < l + size
    one_more zero size l k p e h = omega arith
    one_more (suc n) size l k p e h = grind arith

-- `k` texts with a separator between them
pub length-join :
    (separator : String) (most : ℕ) (ss : List String)
    → All (λ s. text_length s ≤ most) ss
    → text_length (join separator ss)
      ≤ length ss * (most + text_length separator) - text_length separator
unfolding join text_length
length-join separator most [] all = grind arith
length-join separator most (s ∷ []) all = grind arith
length-join separator most (s ∷ t ∷ ts) all = grind (
  arith,
  text_length-append s (separator <> join separator (t ∷ ts)),
  text_length-append separator (join separator (t ∷ ts)),
  length-join separator most (t ∷ ts) all.1,
)
