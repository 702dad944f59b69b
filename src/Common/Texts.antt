-- ===== src/Common/Texts.antt =====
-- Texts: their length, their parts and the texts made of them, as Python's `str` has them.
pub mod Laws
use Prim.Native.Nat.{ℕ, zero, suc}
use Prim.Native.Char.{Char}
use Prim.Native.String.{String, ◌++◌ as ◌<>◌}
use Prim.Native.String as Text
use mathlib.Core.Bool.{Bool}
use mathlib.Core.List.{List, [], ◌∷◌}
use text.Mathlib.Text.{◌==◌}
use knowledgebase_storage.Common.Tests.{if◌then◌else◌}
use knowledgebase_storage.Common.Lists.{take_text}

-- `len(s)`
unfoldable pub text_length : String → ℕ
text_length Text.[] = 0
text_length (Text.◌∷◌ c s) = suc (text_length s)

-- `s[n:]`
unfoldable pub drop_text : ℕ → String → String
drop_text zero s = s
drop_text (suc n) Text.[] = ""
drop_text (suc n) (Text.◌∷◌ c s) = drop_text n s

-- `separator.join(texts)`
unfoldable pub join : String → List String → String
join separator [] = ""
join separator (s ∷ []) = s
join separator (s ∷ t ∷ ts) = s <> (separator <> join separator (t ∷ ts))

-- The texts one after the other.
unfoldable pub all_text : List String → String
all_text [] = ""
all_text (s ∷ ss) = s <> all_text ss

-- `[s[i : i + size] for i in range(0, len(s), size)]`, in `rounds` steps at most
unfoldable pub pieces : (rounds size : ℕ) → String → List String
unfolding take_text drop_text
pieces zero size s = []
pieces (suc rounds) size s =
    let rest = take_text size s ∷ pieces rounds size (drop_text size s) in
    if s == "" then [] else rest

-- `s.split()`: the words between spaces; `word` is what was read of the present one
unfoldable pub words_from : (Char → Bool) → (word : String) → String → List String
words_from is_space word Text.[] = if word == "" then [] else word ∷ []
words_from is_space word (Text.◌∷◌ c s) =
    let ended = words_from is_space "" s in
    let longer = words_from is_space (word <> (Text.◌∷◌ c "")) s in
    if is_space c then (if word == "" then ended else word ∷ ended) else longer

-- `" ".join(s.split())`
unfoldable pub flat_text : (Char → Bool) → String → String
unfolding join words_from
flat_text is_space s = join " " (words_from is_space "" s)

-- `s.split(mark)` at a mark of one character; `part` is what was read since the last one
unfoldable pub parts_from : (mark part : String) → String → List String
parts_from mark part Text.[] = part ∷ []
parts_from mark part (Text.◌∷◌ c s) =
    let ended = part ∷ parts_from mark "" s in
    let longer = parts_from mark (part <> (Text.◌∷◌ c "")) s in
    if (Text.◌∷◌ c "") == mark then ended else longer
