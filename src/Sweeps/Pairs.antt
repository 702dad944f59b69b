-- ===== src/Sweeps/Pairs.antt =====
-- `pairs_worth_judging` of backend/services/background.py: which pairs of projects a language model is asked
-- about. A set is a list; `slugs` are the projects that have a directory, and `shared` are the pairs that git
-- repositories share.
pub mod Owned
pub mod Combined
pub mod Judged
use Prim.Native.String.{compare}
use Prim.Native.Nat.{Ordering}
use knowledgebase_storage.Common.{
  String, Bool, true, false, not, ◌&&◌, ◌||◌, Option, none, some, List, [], ◌∷◌, ◌++◌, ◌==◌, ◌<>◌,
  map, if◌then◌else◌, is_none, contains, keep,
}
use knowledgebase_storage.Common.Dict.{lookup, insert}
use knowledgebase_storage.Common.Table.{order_by}
use knowledgebase_storage.Names.{CharTables, begins}
use knowledgebase_storage.Aliases.{ProjectAlias, resolve}
use knowledgebase_storage.Links.{ProjectLink, find}
use knowledgebase_storage.Entries.{EntrySource, ProjectEntry}

-- `s < t`
abbrev pub text_lt : String → String → Bool
text_lt s t = elim (compare s t) [ Ordering.lt ↦ true | _ ↦ false ]

unfoldable pub is_nested : (path other : String) → Bool
unfolding begins
is_nested path other =
    not (path == other) && (begins other (path <> "/") || begins path (other <> "/"))

-- `held.add(slug)`
unfoldable pub add_once : String → List String → List String
add_once slug held = if contains held slug then held else held ++ slug ∷ []

abbrev pub or_no_slugs : Option (List String) → List String
or_no_slugs none = []
or_no_slugs (some held) = held

abbrev pub Owners : Type 0
Owners = List (String × List String)

-- `owners.setdefault(path, set()).add(entry.slug)`
unfoldable pub own : (path slug : String) → Owners → Owners
unfolding lookup insert add_once
own path slug owners = insert path (add_once slug (or_no_slugs (lookup path owners))) owners

unfoldable pub own_each : (slug : String) → List EntrySource → Owners → Owners
unfolding own
own_each slug [] owners = owners
own_each slug (s ∷ ss) owners =
    own_each slug ss (if s.path == "" then owners else own s.path slug owners)

unfoldable pub owners_of : List ProjectEntry → Owners → Owners
unfolding own_each
owners_of [] owners = owners
owners_of (e ∷ es) owners = owners_of es (own_each e.slug e.sources owners)

-- `held | outside` for the other folders that lie in this one, or that it lies in
unfoldable pub nested_with : (path : String) → (held : List String) → Owners → List (List String)
unfolding is_nested
nested_with path held [] = []
nested_with path held ((other, outside) ∷ rest) =
    let later = nested_with path held rest in
    if is_nested path other then (held ++ outside) ∷ later else later

unfoldable pub nested_groups : Owners → Owners → List (List String)
unfolding nested_with
nested_groups owners [] = []
nested_groups owners ((path, held) ∷ rest) =
    nested_with path held owners ++ nested_groups owners rest

unfoldable pub pairs_from : (first : String) → List String → List (String × String)
pairs_from first [] = []
pairs_from first (second ∷ held) =
    let rest = pairs_from first held in
    if text_lt first second then (first, second) ∷ rest else rest

unfoldable pub pairs_in : (held firsts : List String) → List (String × String)
unfolding pairs_from
pairs_in held [] = []
pairs_in held (first ∷ firsts) = pairs_from first held ++ pairs_in held firsts

unfoldable pub combined : (groups : List (List String)) → List (String × String)
unfolding pairs_in
combined [] = []
combined (held ∷ groups) = pairs_in held held ++ combined groups

abbrev pub groups_of : Owners → List (List String)
groups_of owners = map (λ o. o.1) owners ++ nested_groups owners owners

abbrev pub same_pair : String × String → String × String → Bool
same_pair p q = p.0 == q.0 && p.1 == q.1

abbrev pub has_pair : List (String × String) → String × String → Bool
has_pair [] p = false
has_pair (q ∷ qs) p = same_pair q p || has_pair qs p

unfoldable pub once : List (String × String) → List (String × String)
once [] = []
once (p ∷ ps) = let rest = once ps in if has_pair ps p then rest else p ∷ rest

abbrev pub pair_lt : String × String → String × String → Bool
pair_lt p q = text_lt p.0 q.0 || (p.0 == q.0 && text_lt p.1 q.1)

abbrev pub slugs_of : List ProjectEntry → List String
slugs_of [] = []
slugs_of (e ∷ es) = e.slug ∷ slugs_of es

module _ (u : CharTables) (aliases : List ProjectAlias) where
  -- `left, right = sorted(…)`
  unfoldable pub resolved_pair : String × String → String × String
  unfolding resolve
  resolved_pair (a, b) =
      let left = resolve u aliases a in
      let right = resolve u aliases b in if text_lt right left then (right, left) else (left, right)

  -- two projects that exist, and that no link joins
  unfoldable pub is_worth : (existing : List String) → List ProjectLink → String × String → Bool
  unfolding find
  is_worth existing links p =
      not (p.0 == p.1)
      && contains existing p.0
      && contains existing p.1
      && is_none (find links p.0 p.1)

  unfoldable pub pairs_worth_judging :
      (slugs : List String)
      → (shared : List (String × String)) → List ProjectEntry
      → List ProjectLink
      → List (String × String)
  unfolding once combined nested_groups owners_of resolved_pair is_worth order_by
  pairs_worth_judging slugs shared entries links =
      let raw = combined (groups_of (owners_of entries [])) ++ shared in
      order_by pair_lt
        (once (keep (is_worth (slugs ++ slugs_of entries) links) (map resolved_pair raw)))
