-- ===== src/Tests/Sessions.antt =====
-- A session of two requests, a checkpoint of the first one, and a provider that answers for the second.

use knowledgebase_storage.Common.{
  ℕ, String, ◌≡◌, refl, true, not, ◌&&◌, Option, none, some, List, [], ◌∷◌, map, ◌==◌,
  if◌then◌else◌, All, keep,
}
use knowledgebase_storage.Sessions.{
  SessionItem, Observation, fact, SessionCheckpoint, grouped, find_item, resumed, saved, lookup_at,
  numbered_from, same_hash, text_at,
}
use knowledgebase_storage.Sessions.Resume.{resumed-saved}
use knowledgebase_storage.Sessions.Pipeline.{Work, run_groups, all_found, shortened}
use knowledgebase_storage.Sessions.Keeps.{Answers, run_groups-Keeps, run_groups_complete}
use knowledgebase_storage.Sessions.Header.{
  Supersede, is_dropped, prune, rewritten, VerifyVerdict, contradicted,
}
use knowledgebase_storage.Sessions.Pruned.{
  observations_of, numbered, without_observations, prune_lem,
}
use knowledgebase_storage.Tests.Data.{ascii}

abbrev requests : List String
requests = "first" ∷ "second" ∷ []

two_groups : grouped requests 8 ≡ (1 ∷ []) ∷ (2 ∷ []) ∷ []
unfolding grouped
two_groups = refl

abbrev observation : String → Observation
observation s = record { category = fact; text = s; tags = [] }

abbrev item_of : ℕ → SessionItem
item_of n = record {
  number = n;
  topic = "t";
  request = "r";
  outcome = "o";
  observations = observation "it is small" ∷ observation "it is large" ∷ [];
  links = [];
}

abbrev itself : String → String
itself s = s

abbrev checkpoint : SessionCheckpoint
checkpoint = record {
  digest = "prompts";
  segments = (1, "first") ∷ (2, "second") ∷ [];
  found = item_of 1 ∷ [];
  makers = [];
}

resumed-saved_example :
    find_item 1 (resumed itself "prompts" (some (saved checkpoint)) requests).found ≡ (
      if "prompts" == itself "prompts"
        && same_hash
            (lookup_at 1 checkpoint.segments)
            (lookup_at 1 (numbered_from itself 1 requests))
      then find_item 1 checkpoint.found
      else none)
resumed-saved_example = resumed-saved itself "prompts" checkpoint requests 1 (tt, tt)

-- the first request reads otherwise now
not_taken_back :
    (resumed itself "prompts" (some (saved checkpoint)) ("first!" ∷ "second" ∷ [])).found ≡ []
unfolding resumed saved
not_taken_back = refl

-- Asked for `second`, it answers for the second request, and else for the first.
abbrev provider : ℕ → String → List SessionItem → List SessionItem
provider turns chunk earlier = if chunk == "second" then item_of 2 ∷ [] else item_of 1 ∷ []

abbrev whole : ℕ → String
whole n = "?"

abbrev nothing : Work
nothing = record { found = []; turns = 0 }

run_groups-Keeps_example :
    find_item 1
      (run_groups ascii.is_space provider whole 100 requests
        (record { found = item_of 1 ∷ []; turns = 0 })).found
    ≡ find_item 1 (item_of 1 ∷ [])
unfolding find_item
run_groups-Keeps_example =
    run_groups-Keeps ascii.is_space provider whole 100 requests
      (record { found = item_of 1 ∷ []; turns = 0 }) 1 refl

answers : All (Answers ascii.is_space provider (map (shortened whole 100) requests)) (1 ∷ 2 ∷ [])
unfolding shortened text_at
answers = (λ turns earlier. refl, (λ turns earlier. refl, tt))

run_groups_complete_example :
    all_found (1 ∷ 2 ∷ []) (run_groups ascii.is_space provider whole 100 requests nothing).found
    ≡ true
run_groups_complete_example =
    run_groups_complete ascii.is_space provider whole 100 "first" ("second" ∷ []) nothing answers

-- the chunk's answer has the first request only, so the second is asked for alone
two_turns : (run_groups ascii.is_space provider whole 100 requests nothing).turns ≡ 2
unfolding run_groups
two_turns = refl

abbrev superseded : List Supersede
superseded = record { old = 1; by = 2 } ∷ record { old = 3; by = 3 } ∷ []

prune_lem_example :
    (observations_of (prune superseded 0 (item_of 1 ∷ item_of 2 ∷ []))
      ≡ map
          (λ (p : ℕ × Observation). p.1)
          (keep
            (λ (p : ℕ × Observation). not (is_dropped superseded p.0))
            (numbered 0 (observations_of (item_of 1 ∷ item_of 2 ∷ [])))))
    × (map without_observations (prune superseded 0 (item_of 1 ∷ item_of 2 ∷ []))
        ≡ map without_observations (item_of 1 ∷ item_of 2 ∷ []))
prune_lem_example = prune_lem superseded 0 (item_of 1 ∷ item_of 2 ∷ [])

abbrev contradicts : ℕ → String → Option VerifyVerdict
contradicts n claim = some (record {
  evidence = "a.py";
  verdict = contradicted;
  correction = "small -> it is of medium size";
})

corrected :
    rewritten ascii.is_space "it is small" "small -> it is of medium size" ≡ "it is of medium size"
unfolding rewritten
corrected = refl
