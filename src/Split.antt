-- ===== src/Split.antt =====
-- backend/services/split.py, and `filed` of `SessionPipeline` in backend/summarizers/session.py: which
-- project each request of a session belongs to. `lines` is Python's `str.splitlines`. A counter is a list
-- of its entries, in the order of insertion.
pub mod Votes
pub mod Plans
use Prim.Native.Char.{Char}
use Prim.Native.String as Text
use knowledgebase_storage.Common.{
  ℕ, zero, suc, ◌+◌, ◌-◌, ◌*◌, String, Bool, true, false, not, ◌&&◌, ◌||◌, Option, none, some, List,
  [], ◌∷◌, ◌++◌, map, ◌==◌, ltb, leb, eqb, if◌then◌else◌, is_empty, contains, ◌<>◌, take_text,
}
use knowledgebase_storage.Common.Texts.{text_length, drop_text, join}
use knowledgebase_storage.Names.{strip, begins, has_part, char_eq}
use knowledgebase_storage.Sessions.{text_at, lookup_at, store_at}

abbrev pub path_min_votes : ℕ
path_min_votes = 3

abbrev pub short_reply_chars : ℕ
short_reply_chars = 40

abbrev pub edit_weight : ℕ
edit_weight = 3

abbrev pub active_weight : ℕ
active_weight = 2

abbrev pub excerpt_chars : ℕ
excerpt_chars = 3500

-- A name with a number of votes, or with the path of its files.
abbrev pub Votes : Type 0
Votes = List (String × ℕ)

abbrev pub Prefixes : Type 0
Prefixes = List (String × String)

-- `line.count(part)`: occurrences that do not overlap; `skip` characters belong to the last one
unfoldable pub count_from : (part : String) → (skip : ℕ) → String → ℕ
unfolding begins text_length
count_from part skip Text.[] = 0
count_from part (suc skip) (Text.◌∷◌ c s) = count_from part skip s
count_from part zero (Text.◌∷◌ c s) =
    let here = suc (count_from part (text_length part - 1) s) in
    let further = count_from part zero s in if begins (Text.◌∷◌ c s) part then here else further

-- `votes[name] += n`
unfoldable pub vote : String → ℕ → Votes → Votes
vote name n [] = (name, n) ∷ []
vote name n ((other, held) ∷ rest) =
    let voted = vote name n rest in
    if other == name then (other, held + n) ∷ rest else (other, held) ∷ voted

unfoldable pub weight_of : (line : String) → ℕ
unfolding begins has_part
weight_of line =
    if begins line "도구:" && has_part "edit " line
    then edit_weight
    else if begins line "(활성 파일"
    then active_weight
    else 1

unfoldable pub vote_line : (line : String) → Prefixes → Votes → Votes
unfolding vote weight_of count_from has_part
vote_line line [] votes = votes
vote_line line ((name, prefix) ∷ rest) votes = vote_line line rest (
    if not (prefix == "") && has_part prefix line
    then vote name (weight_of line * count_from prefix 0 line) votes
    else votes)

unfoldable pub vote_lines : List String → Prefixes → Votes → Votes
unfolding vote_line
vote_lines [] prefixes votes = votes
vote_lines (l ∷ ls) prefixes votes = vote_lines ls prefixes (vote_line l prefixes votes)

unfoldable pub votes_of : (lines : String → List String) → (segment : String) → Prefixes → Votes
unfolding vote_lines
votes_of lines segment prefixes = vote_lines (lines segment) prefixes []

unfoldable pub total : Votes → ℕ
total [] = 0
total ((name, n) ∷ rest) = n + total rest

-- `votes.most_common(1)[0]`: the first of the names with the most votes, where there is one
unfoldable pub most_common : Votes → String × ℕ
most_common [] = ("", 0)
most_common ((name, n) ∷ rest) =
    let (other, m) = most_common rest in if ltb n m then (other, m) else (name, n)

-- `segment.split("\n", 2)[1]`, or the segment
unfoldable pub up_to_line : String → String
up_to_line Text.[] = ""
up_to_line (Text.◌∷◌ c s) =
    let rest = up_to_line s in if char_eq c "\n" then "" else Text.◌∷◌ c rest

unfoldable pub after_line : String → Option String
after_line Text.[] = none
after_line (Text.◌∷◌ c s) = let rest = after_line s in if char_eq c "\n" then some s else rest

unfoldable pub request_of : (segment : String) → String
unfolding after_line up_to_line
request_of segment = elim (after_line segment) [ none ↦ segment | some rest ↦ up_to_line rest ]

pub data How : Type 0 where
  path continue llm : How

pub record Decided : Type 0 where
  pub project : String
  pub how : How
  pub votes : Votes

abbrev pub is_path : How → Bool
is_path path = true
is_path _ = false

abbrev pub is_llm : How → Bool
is_llm llm = true
is_llm _ = false

pub record SplitRow : Type 0 where
  pub number : ℕ
  pub project : String
  pub how : How
  pub votes : Votes

-- `project or other`
abbrev pub or_project : String → String → String
or_project project other = if project == "" then other else project

module _ (is_space : Char → Bool) (lines : String → List String) where
  -- `decided`, from the votes
  unfoldable pub decided_by : (segment : String) → Votes → (previous : String) → Decided
  unfolding most_common request_of strip text_length total
  decided_by segment votes previous =
      let all = total votes in
      let (top, count) = most_common votes in
      let other =
        if eqb all 0 && ltb (text_length (strip is_space (request_of segment))) short_reply_chars
        then record { project = previous; how = continue; votes = [] }
        else record { project = ""; how = llm; votes = votes } in
      if leb path_min_votes all && leb (3 * all) (4 * count)
      then record { project = top; how = path; votes = votes }
      else other

  unfoldable pub decided : (segment : String) → Prefixes → (previous : String) → Decided
  unfolding decided_by votes_of
  decided segment prefixes previous = decided_by segment (votes_of lines segment prefixes) previous

  unfoldable pub plan_from :
      (number : ℕ) → List String → Prefixes → (container previous : String) → List SplitRow
  unfolding decided
  plan_from number [] prefixes container previous = []
  plan_from number (segment ∷ segments) prefixes container previous =
      let d = decided segment prefixes previous in
      record {
        number = number;
        project = or_project d.project container;
        how = d.how;
        votes = d.votes;
      }
      ∷ plan_from (suc number) segments prefixes container (or_project d.project previous)

  unfoldable pub plan : List String → Prefixes → (container : String) → List SplitRow
  unfolding plan_from
  plan segments prefixes container = plan_from 1 segments prefixes container container

-- The prompt of a request that the votes do not decide.
unfoldable pub split_prompt :
    (segments candidates : List String) → (previous : String) → (number : ℕ) → String
unfolding join take_text text_at
split_prompt segments candidates previous number =
    "Projects:\n"
    <> (join "\n" candidates
        <> ("\n\nPrevious request was filed under: "
            <> (previous <> ("\n\n---\n\n" <> take_text excerpt_chars (text_at segments number)))))

-- What the provider chooses for a request is a parameter.
module _ (choose : (number : ℕ) (seen : String) → String)
    (segments candidates names : List String) where
  unfoldable pub file_row : SplitRow → (previous : String) → String
  unfolding split_prompt
  file_row row previous =
      let choice = choose row.number (split_prompt segments candidates previous row.number) in
      if not (is_llm row.how)
      then row.project
      else if contains names choice
      then choice
      else previous

  unfoldable pub file_rows :
      List SplitRow → (previous : String) → List (ℕ × String) → List (ℕ × String)
  unfolding file_row store_at
  file_rows [] previous decided = decided
  file_rows (r ∷ rs) previous decided =
      file_rows rs (file_row r previous) (store_at r.number (file_row r previous) decided)

  -- `filed`, where there is a split and the stage has a prompt
  unfoldable pub filed :
      (system : String) → List SplitRow → (container : String) → List (ℕ × String)
  unfolding file_rows
  filed system split container =
      if is_empty split || system == "" then [] else file_rows split container []
