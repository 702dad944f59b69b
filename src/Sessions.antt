-- ===== src/Sessions.antt =====
-- backend/summarizers/session.py: what a session's summary is made of, how its requests are grouped into
-- chunks, and the checkpoint that a worker resumes from. A request's number is natural: a provider's
-- negative number is none of a request's, like 0. The hash of a text and the digest of the prompts are
-- parameters. A dictionary by numbers is a list of its entries, in the order of insertion.
pub mod Pipeline
pub mod Header
pub mod Groups
pub mod Resume
pub mod Found
pub mod Keeps
pub mod Pruned
use knowledgebase_storage.Common.{
  ℕ, zero, suc, ◌+◌, String, Bool, true, false, not, ◌&&◌, Option, none, some, List, [], ◌∷◌, ◌++◌,
  ◌==◌, ltb, eqb, if◌then◌else◌, is_some, is_empty, map,
}
use knowledgebase_storage.Common.Table.{first, put}
use knowledgebase_storage.Common.Texts.{text_length}
use knowledgebase_storage.Links.Service.{LinkCandidate}

pub data ObservationCategory : Type 0 where
  decision problem next change fact idea : ObservationCategory

pub record Observation : Type 0 where
  pub category : ObservationCategory
  pub text : String
  pub tags : List String

pub record SessionItem : Type 0 where
  pub number : ℕ
  pub topic : String
  pub request : String
  pub outcome : String
  pub observations : List Observation
  pub links : List LinkCandidate

-- `rendered[number - 1]`
unfoldable pub text_at : List String → ℕ → String
text_at [] number = ""
text_at (s ∷ ss) zero = ""
text_at (s ∷ ss) (suc zero) = s
text_at (s ∷ ss) (suc (suc n)) = text_at ss (suc n)

unfoldable pub chars_of : List String → List ℕ → ℕ
unfolding text_at text_length
chars_of rendered [] = 0
chars_of rendered (held ∷ rest) = text_length (text_at rendered held) + chars_of rendered rest

-- The groups but the last, and the last.
pub record Grouping : Type 0 where
  pub earlier : List (List ℕ)
  pub last : List ℕ

unfoldable pub place : (rendered : List String) (budget number : ℕ) → String → Grouping → Grouping
unfolding chars_of
place rendered budget number s g =
    if not (is_empty g.last) && ltb budget (chars_of rendered g.last + text_length s)
    then record { earlier = g.earlier ++ (g.last ∷ []); last = number ∷ [] }
    else record g { last = g.last ++ (number ∷ []) }

unfoldable pub place_each :
    (rendered : List String) (budget number : ℕ) → List String → Grouping → Grouping
unfolding place
place_each rendered budget number [] g = g
place_each rendered budget number (s ∷ ss) g =
    place_each rendered budget (suc number) ss (place rendered budget number s g)

unfoldable pub grouped : (rendered : List String) (budget : ℕ) → List (List ℕ)
unfolding place_each
grouped rendered budget =
    let g = place_each rendered budget 1 rendered (record { earlier = []; last = [] }) in
    g.earlier ++ (g.last ∷ [])

-- `entries.get(number)`
unfoldable pub lookup_at {ℓ} : {A : Type ℓ} → ℕ → List (ℕ × A) → Option A
lookup_at number [] = none
lookup_at number ((key, value) ∷ rest) =
    let found = lookup_at number rest in if eqb key number then some value else found

-- `entries[number] = value`
unfoldable pub store_at {ℓ} : {A : Type ℓ} → ℕ → A → List (ℕ × A) → List (ℕ × A)
store_at number value [] = (number, value) ∷ []
store_at number value ((key, old) ∷ rest) =
    let stored = store_at number value rest in
    if eqb key number then (key, value) ∷ rest else (key, old) ∷ stored

unfoldable pub find_item : ℕ → List SessionItem → Option SessionItem
unfolding first
find_item number found = first (λ i. eqb i.number number) found

-- `found[item.number] = item`
unfoldable pub store_item : SessionItem → List SessionItem → List SessionItem
unfolding put
store_item item found = put (λ a b. eqb a.number b.number) item found

pub record SessionCheckpoint : Type 0 where
  pub digest : String
  pub segments : List (ℕ × String)
  pub found : List SessionItem
  pub makers : List (ℕ × String)

-- What `saved` writes to a job's row. `none` for the items: one of them no longer reads.
pub record SavedCheckpoint : Type 0 where
  pub digest : String
  pub items : Option (List SessionItem)
  pub segments : List (ℕ × Option String)
  pub makers : List (ℕ × String)

unfoldable pub numbered_from : (hash : String → String) → ℕ → List String → List (ℕ × String)
numbered_from hash number [] = []
numbered_from hash number (s ∷ ss) = (number, hash s) ∷ numbered_from hash (suc number) ss

abbrev pub hashed : Option (Option String) → Option String
hashed none = none
hashed (some held) = held

-- both are there and equal
abbrev pub same_hash : Option String → Option String → Bool
same_hash (some a) (some b) = a == b
same_hash _ _ = false

abbrev pub credit_maker : ℕ → Option String → List (ℕ × String) → List (ℕ × String)
credit_maker number none makers = makers
credit_maker number (some maker) makers =
    let stored = store_at number maker makers in if maker == "" then makers else stored

-- One of the saved items.
unfoldable pub take_back : SavedCheckpoint → SessionItem → SessionCheckpoint → SessionCheckpoint
unfolding lookup_at store_item store_at
take_back saved item c =
    if same_hash (hashed (lookup_at item.number saved.segments)) (lookup_at item.number c.segments)
    then record c {
      found = store_item item c.found;
      makers = credit_maker item.number (lookup_at item.number saved.makers) c.makers;
    }
    else c

unfoldable pub take_back_each :
    SavedCheckpoint → List SessionItem → SessionCheckpoint → SessionCheckpoint
unfolding take_back
take_back_each saved [] c = c
take_back_each saved (i ∷ is) c = take_back_each saved is (take_back saved i c)

abbrev pub take_back_all : SavedCheckpoint → SessionCheckpoint → SessionCheckpoint
take_back_all saved c = elim saved.items [ none ↦ c | some items ↦ take_back_each saved items c ]

unfoldable pub resumed :
    (hash : String → String)
    → (stages : String) → Option SavedCheckpoint
    → (segments : List String) → SessionCheckpoint
unfolding numbered_from take_back_each
resumed hash stages saved segments =
    let checkpoint : SessionCheckpoint = record {
      digest = hash stages;
      segments = numbered_from hash 1 segments;
      found = [];
      makers = [];
    } in
    elim saved [
      | none ↦ checkpoint
      | some s ↦ if s.digest == checkpoint.digest then take_back_all s checkpoint else checkpoint
    ]

-- `segments` of `saved`
unfoldable pub saved_segments : List (ℕ × String) → List SessionItem → List (ℕ × Option String)
unfolding lookup_at
saved_segments segments [] = []
saved_segments segments (i ∷ is) =
    (i.number, lookup_at i.number segments) ∷ saved_segments segments is

unfoldable pub saved_makers : List SessionItem → List (ℕ × String) → List (ℕ × String)
unfolding find_item
saved_makers found [] = []
saved_makers found ((number, maker) ∷ rest) =
    let kept = saved_makers found rest in
    if is_some (find_item number found) then (number, maker) ∷ kept else kept

unfoldable pub saved : SessionCheckpoint → SavedCheckpoint
unfolding saved_segments saved_makers
saved c = record {
  digest = c.digest;
  items = some c.found;
  segments = saved_segments c.segments c.found;
  makers = saved_makers c.found c.makers;
}

-- `credit`: the items that nobody is credited with are the provider's
unfoldable pub credit : String → List SessionItem → List (ℕ × String) → List (ℕ × String)
unfolding lookup_at store_at
credit provider [] makers = makers
credit provider (i ∷ is) makers =
    let stored = credit provider is (store_at i.number provider makers) in
    let kept = credit provider is makers in
    if is_some (lookup_at i.number makers) then kept else stored
