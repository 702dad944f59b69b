-- ===== src/Sessions/Pipeline.antt =====
-- `SessionPipeline` of backend/summarizers/session.py. What a provider answers is a parameter: `ask` is
-- told how many requests it had before, and gives the items of a chunk. Its explorations of the
-- repository are part of it, and so is the verdict on a claim.
use Prim.Native.Char.{Char}
use knowledgebase_storage.Common.{
  ℕ, suc, ◌+◌, ◌-◌, ◌*◌, ◌/◌, String, Bool, true, false, not, ◌&&◌, ◌||◌, List, [], ◌∷◌, map, ◌==◌,
  ltb, leb, eqb, if◌then◌else◌, is_some, is_empty, keep, take_text, ◌<>◌, length,
}
use knowledgebase_storage.Common.Texts.{text_length, drop_text, join, flat_text}
use knowledgebase_storage.Common.Table.{order_by}
use knowledgebase_storage.Names.{has_part}
use knowledgebase_storage.Links.Service.{LinkCandidate}
use knowledgebase_storage.Summaries.{estimate_tokens}
use knowledgebase_storage.Sessions.{SessionItem, text_at, grouped, find_item, store_item}

abbrev pub chunk_chars : ℕ
chunk_chars = 13000

abbrev pub earlier_line_chars : ℕ
earlier_line_chars = 200

abbrev pub min_header_line_chars : ℕ
min_header_line_chars = 80

abbrev pub earlier_tokens : ℕ
earlier_tokens = 1000

abbrev pub earlier_items : ℕ
earlier_items = 8

abbrev pub min_correction_chars : ℕ
min_correction_chars = 15

unfoldable pub sum_estimates : List String → ℕ
unfolding estimate_tokens
sum_estimates [] = 0
sum_estimates (s ∷ ss) = estimate_tokens s + sum_estimates ss

-- `room`, or 0 where it is negative
unfoldable pub room : (budget reserved : ℕ) → List String → ℕ
unfolding sum_estimates
room budget reserved texts = (budget - reserved - sum_estimates texts) * 2

unfoldable pub quoted_in : (is_space : Char → Bool) → (quote text : String) → Bool
unfolding flat_text has_part
quoted_in is_space quote text =
    let needle = flat_text is_space quote in
    ltb 10 (text_length needle) && has_part (take_text 120 needle) (flat_text is_space text)

-- A request that is longer than the limit, without its middle.
unfoldable pub shortened : (decimal : ℕ → String) → (limit : ℕ) → String → String
unfolding text_length take_text drop_text
shortened decimal limit segment =
    let head = limit * 2 / 5 in
    if ltb limit (text_length segment)
    then take_text head segment
      <> ("\n\n… "
          <> (decimal (text_length segment - limit)
              <> (" characters of this request left out …\n\n"
                  <> drop_text (head + text_length segment - limit) segment)))
    else segment

-- The last `n` entries.
unfoldable pub last_items : ℕ → List SessionItem → List SessionItem
last_items n [] = []
last_items n (i ∷ is) =
    let rest = last_items n is in if leb (suc (length is)) n then i ∷ is else rest

-- The prompt of a chunk: what the repository shows, the items of earlier requests and the log.
unfoldable pub chunk_prompt :
    (background found chunk : String) → (earlier : List SessionItem) → String
unfolding last_items join take_text
chunk_prompt background found chunk earlier =
    let shown =
      if found == ""
      then background
      else background
        <> ("What the repository shows, checked before writing:\n" <> (found <> "\n\n---\n\n")) in
    let lines =
      map
        (λ (i : SessionItem).
          take_text earlier_line_chars ("- " <> (i.request <> (" → " <> i.outcome))))
        (last_items earlier_items earlier) in
    let told =
      if is_empty earlier
      then shown
      else shown <> ("Earlier in this session:\n" <> (join "\n" lines <> "\n\n---\n\n")) in
    told <> ("Session log:\n\n" <> chunk)

-- `[link for link in item.links if quoted_in(link.quote, chunk)]`
unfoldable pub quoted_links :
    (is_space : Char → Bool) → (chunk : String) → SessionItem → SessionItem
unfolding quoted_in keep
quoted_links is_space chunk item = record item {
  links = keep (λ (l : LinkCandidate). quoted_in is_space l.quote chunk) item.links;
}

-- the items of the numbers below a bound, in order
unfoldable pub items_below : ℕ → List SessionItem → List SessionItem
unfolding order_by keep
items_below number found =
    order_by (λ a b. ltb a.number b.number) (keep (λ (i : SessionItem). ltb i.number number) found)

abbrev pub in_group : List ℕ → ℕ → Bool
in_group [] number = false
in_group (n ∷ ns) number = eqb n number || in_group ns number

-- `all(number in found for number in group)`
abbrev pub all_found : List ℕ → List SessionItem → Bool
all_found [] found = true
all_found (n ∷ ns) found = is_some (find_item n found) && all_found ns found

abbrev pub head_of : List ℕ → ℕ
head_of [] = 0
head_of (n ∷ ns) = n

-- What the pipeline keeps while it goes through the groups.
pub record Work : Type 0 where
  pub found : List SessionItem
  pub turns : ℕ

unfoldable pub accept_one : (group : List ℕ) → SessionItem → List SessionItem → List SessionItem
unfolding store_item find_item
accept_one group item found =
    if in_group group item.number && not (is_some (find_item item.number found))
    then store_item item found
    else found

unfoldable pub accept_each :
    (group : List ℕ) → List SessionItem → List SessionItem → List SessionItem
unfolding accept_one
accept_each group [] found = found
accept_each group (i ∷ is) found = accept_each group is (accept_one group i found)

unfoldable pub accept_alone : (number : ℕ) → List SessionItem → List SessionItem → List SessionItem
unfolding store_item
accept_alone number [] found = found
accept_alone number (i ∷ is) found =
    accept_alone number is (if eqb i.number number then store_item i found else found)

module _ (is_space : Char → Bool)
    (ask : (turns : ℕ) (chunk : String) (earlier : List SessionItem) → List SessionItem) where
  unfoldable pub chunk_items :
      (turns : ℕ) → (chunk : String) → (earlier : List SessionItem) → List SessionItem
  unfolding quoted_links
  chunk_items turns chunk earlier = map (quoted_links is_space chunk) (ask turns chunk earlier)

  -- a request that the chunk's answer left out is asked for alone
  unfoldable pub ask_one : (segments : List String) → ℕ → Work → Work
  unfolding chunk_items accept_alone items_below text_at find_item
  ask_one segments number w =
      let alone = chunk_items w.turns (text_at segments number) (items_below number w.found) in
      if is_some (find_item number w.found)
      then w
      else record { found = accept_alone number alone w.found; turns = suc w.turns }

  unfoldable pub ask_alone : (segments : List String) → List ℕ → Work → Work
  unfolding ask_one
  ask_alone segments [] w = w
  ask_alone segments (number ∷ rest) w = ask_alone segments rest (ask_one segments number w)

  -- the items of a chunk's answer
  unfoldable pub ask_chunk : (segments : List String) → List ℕ → Work → Work
  unfolding chunk_items accept_each items_below text_at join
  ask_chunk segments group w =
      let chunk = join "\n\n" (map (text_at segments) group) in
      let items = chunk_items w.turns chunk (items_below (head_of group) w.found) in
      record { found = accept_each group items w.found; turns = suc w.turns }

  -- One round of the loop over the groups.
  unfoldable pub ask_group : (segments : List String) → List ℕ → Work → Work
  unfolding ask_chunk ask_alone
  ask_group segments group w =
      if all_found group w.found then w else ask_alone segments group (ask_chunk segments group w)

  unfoldable pub ask_groups : (segments : List String) → List (List ℕ) → Work → Work
  unfolding ask_group
  ask_groups segments [] w = w
  ask_groups segments (g ∷ gs) w = ask_groups segments gs (ask_group segments g w)

  -- the first part of `run`: the items of all requests
  unfoldable pub run_groups :
      (decimal : ℕ → String) → (limit : ℕ) → (segments : List String) → Work → Work
  unfolding ask_groups shortened grouped
  run_groups decimal limit segments w =
      let shorter = map (shortened decimal limit) segments in
      ask_groups shorter (grouped shorter chunk_chars) w
