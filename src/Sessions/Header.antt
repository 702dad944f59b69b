-- ===== src/Sessions/Header.antt =====
-- `verified`, `header` and `prune` of `SessionPipeline` in backend/summarizers/session.py: the claims that
-- are checked against the repository, the observations as the last prompt numbers them, and those that a
-- later one supersedes. The text of a number, and the verdict on a claim, are parameters.
use Prim.Native.Char.{Char}
use Prim.Native.String as Text
use knowledgebase_storage.Common.{
  ℕ, suc, ◌+◌, ◌/◌, max, String, Bool, true, false, not, ◌&&◌, ◌||◌, Option, none, some, List, [],
  ◌∷◌, ◌++◌, map, ◌==◌, ltb, eqb, if◌then◌else◌, is_empty, take_text, ◌<>◌, length,
}
use knowledgebase_storage.Common.Texts.{text_length, drop_text}
use knowledgebase_storage.Names.{strip, begins}
use knowledgebase_storage.Sessions.{
  ObservationCategory, decision, problem, next, change, fact, idea, Observation, SessionItem,
}
use knowledgebase_storage.Sessions.Pipeline.{min_header_line_chars, min_correction_chars}

abbrev pub category_value : ObservationCategory → String
category_value decision = "decision"
category_value problem = "problem"
category_value next = "next"
category_value change = "change"
category_value fact = "fact"
category_value idea = "idea"

-- `VERIFIED_CATEGORIES`
abbrev pub is_verified : ObservationCategory → Bool
is_verified change = true
is_verified fact = true
is_verified _ = false

pub data Finding : Type 0 where
  confirmed partly not_found contradicted : Finding

pub record VerifyVerdict : Type 0 where
  pub evidence : String
  pub verdict : Finding
  pub correction : String

abbrev pub is_wrong : Finding → Bool
is_wrong contradicted = true
is_wrong _ = false

-- what follows the last occurrence of a text, if it occurs: `s.rsplit(mark, 1)[1]`
unfoldable pub after_last : (mark : String) → String → Option String
unfolding begins drop_text text_length
after_last mark Text.[] = none
after_last mark (Text.◌∷◌ c s) = elim (after_last mark s) [
  | some rest ↦ some rest
  | none ↦
      if begins (Text.◌∷◌ c s) mark
      then some (drop_text (text_length mark) (Text.◌∷◌ c s))
      else none
]

unfoldable pub past_arrow : (is_space : Char → Bool) → (arrow : String) → String → String
unfolding after_last strip
past_arrow is_space arrow wanted = elim (after_last arrow wanted) [
  | none ↦ wanted
  | some rest ↦ strip is_space rest
]

unfoldable pub rewritten : (is_space : Char → Bool) → (original correction : String) → String
unfolding past_arrow strip text_length
rewritten is_space original correction =
    let wanted = past_arrow is_space "→" (past_arrow is_space "->" (strip is_space correction)) in
    if ltb min_correction_chars (text_length wanted) && not (wanted == strip is_space original)
    then wanted
    else ""

-- The claims checked so far, and those that were corrected.
pub record Checked : Type 0 where
  pub claims : ℕ
  pub corrected : ℕ

unfoldable pub judged_text :
    (is_space : Char → Bool) → (original : String) → Option VerifyVerdict → String
unfolding rewritten strip
judged_text is_space original none = ""
judged_text is_space original (some v) =
    if not (is_wrong v.verdict) || strip is_space v.evidence == ""
    then ""
    else rewritten is_space original v.correction

module _ (is_space : Char → Bool)
    (investigate : (claims : ℕ) (claim : String) → Option VerifyVerdict) (at_most : ℕ) where
  -- One observation: a claim is checked while fewer than the limit were.
  unfoldable pub verify_one : Checked → Observation → Checked × Observation
  unfolding judged_text
  verify_one c o =
      let wanted = judged_text is_space o.text (investigate c.claims o.text) in
      let checked = record c { claims = suc c.claims } in
      if not (is_verified o.category && ltb c.claims at_most)
      then (c, o)
      else if wanted == ""
      then (checked, o)
      else (record checked { corrected = suc c.corrected }, record o { text = wanted })

  unfoldable pub verify_each : Checked → List Observation → Checked × List Observation
  unfolding verify_one
  verify_each c [] = (c, [])
  verify_each c (o ∷ os) =
      let (c', o') = verify_one c o in let (c'', os') = verify_each c' os in (c'', o' ∷ os')

  -- `verified`
  unfoldable pub verify_items : Checked → List SessionItem → Checked × List SessionItem
  unfolding verify_each
  verify_items c [] = (c, [])
  verify_items c (i ∷ is) =
      let (c', os) = verify_each c i.observations in
      let (c'', is') = verify_items c' is in (c'', record i { observations = os } ∷ is')

-- `header`: the lines of the last prompt, before and after they are cut to the room
module _ (decimal : ℕ → String) where
  unfoldable pub observation_lines : (counted : ℕ) → List Observation → List String
  observation_lines counted [] = []
  observation_lines counted (o ∷ os) =
      (decimal (suc counted) <> (". [" <> (category_value o.category <> ("] " <> o.text))))
      ∷ observation_lines (suc counted) os

  unfoldable pub header_lines : (counted : ℕ) → List SessionItem → List String
  unfolding observation_lines
  header_lines counted [] = []
  header_lines counted (i ∷ is) =
      ("## " <> (i.request <> ("\n결과: " <> i.outcome)))
      ∷ (observation_lines counted i.observations
          ++ header_lines (counted + length i.observations) is)

unfoldable pub chars_with_ends : List String → ℕ
unfolding text_length
chars_with_ends [] = 0
chars_with_ends (s ∷ ss) = suc (text_length s) + chars_with_ends ss

unfoldable pub capped_lines : (room : ℕ) → List String → List String
unfolding chars_with_ends take_text
capped_lines room lines =
    if not (is_empty lines) && ltb room (chars_with_ends lines)
    then map (take_text (max (room / length lines) min_header_line_chars)) lines
    else lines

pub record Supersede : Type 0 where
  pub old : ℕ
  pub by : ℕ

-- `number in dropped`
unfoldable pub is_dropped : List Supersede → ℕ → Bool
is_dropped [] number = false
is_dropped (p ∷ ps) number =
    (ltb 0 p.old && ltb p.old p.by && eqb p.old number) || is_dropped ps number

unfoldable pub prune_observations :
    List Supersede → (counted : ℕ) → List Observation → List Observation
unfolding is_dropped
prune_observations superseded counted [] = []
prune_observations superseded counted (o ∷ os) =
    let rest = prune_observations superseded (suc counted) os in
    if is_dropped superseded (suc counted) then rest else o ∷ rest

unfoldable pub prune : List Supersede → (counted : ℕ) → List SessionItem → List SessionItem
unfolding prune_observations
prune superseded counted [] = []
prune superseded counted (i ∷ is) =
    record i { observations = prune_observations superseded counted i.observations }
    ∷ prune superseded (counted + length i.observations) is
