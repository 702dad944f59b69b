-- ===== src/Entries.antt =====
-- backend/services/entries.py, backend/repositories/entry.py and `ProjectService.carry_entry` of
-- backend/services/projects.py: what is known of a project, and where its sources lie. Of a source its
-- path and its prefix are modelled; every source has both. Entries are listed in the table's order, which
-- is that of the slugs.
pub mod Sources
use Prim.Native.Char.{Char}
use knowledgebase_storage.Common.{
  ℕ, zero, suc, ◌+◌, ◌-◌, ◌*◌, ◌/◌, ◌%◌, ◌^◌, ◌≤◌, ◌<◌, min, max, String, ◌≡◌, refl, sym, ap, ◌∙◌,
  subst, ◌≢◌, ◌↔◌, ◌⊎◌, inl, inr, Bool, true, false, not, ◌&&◌, ◌||◌, Option, none, some, List, [],
  ◌∷◌, ◌++◌, map, reverse, Memᴰ, arith, ◌==◌, eq_iff, eq_refl, ltb, leb, eqb, if◌then◌else◌,
  Bool-cases, Option-cases, is_none, is_some, holds_text, or_text, take_text, ◌<>◌, length,
  length-append, take, All, keep, contains,
}
use knowledgebase_storage.Common.Table.{first, put, delete_where}
use knowledgebase_storage.Names.{CharTables, char_eq, begins, strip_right}
use knowledgebase_storage.Aliases.{ProjectAlias, resolve}

pub record EntrySource : Type 0 where
  pub path : String
  pub prefix : String

pub record ProjectEntry : Type 0 where
  pub id : ℕ
  pub slug : String
  pub description : String
  pub sources : List EntrySource
  pub container : Bool

pub record ProjectEntryWrite : Type 0 where
  pub slug : String
  pub description : String
  pub sources : List EntrySource
  pub container : Bool

abbrev pub description_chars : ℕ
description_chars = 200

abbrev pub ends_path : Char → Bool
ends_path c = char_eq c "/"

unfoldable pub covers : String → String → Bool
unfolding begins strip_right
covers root path =
    not (root == "") && (path == root || begins path (strip_right ends_path root <> "/"))

unfoldable pub prefix_in : String → List EntrySource → String
unfolding covers
prefix_in path [] = ""
prefix_in path (s ∷ ss) =
    let rest = prefix_in path ss in if covers s.path path then s.prefix else rest

abbrev pub prefix_for : String → ProjectEntry → String
prefix_for path entry = prefix_in path entry.sources

unfoldable pub covers_any : String → List EntrySource → Bool
unfolding covers
covers_any path [] = false
covers_any path (s ∷ ss) = covers s.path path || covers_any path ss

unfoldable pub find_entry : String → List ProjectEntry → Option ProjectEntry
unfolding first
find_entry slug entries = first (λ e. e.slug == slug) entries

unfoldable pub sharing : String → List ProjectEntry → List ProjectEntry
unfolding keep covers_any
sharing path entries = keep (λ e. covers_any path e.sources) entries

unfoldable pub forget_entries : List String → List ProjectEntry → List ProjectEntry
unfolding delete_where
forget_entries slugs entries = delete_where (λ e. contains slugs e.slug) entries

unfoldable pub save_entry : ProjectEntry → List ProjectEntry → List ProjectEntry
unfolding put
save_entry entry entries = put (λ a b. eqb a.id b.id) entry entries

unfoldable pub entry_or_made : (id : ℕ) → String → Option ProjectEntry → ProjectEntry
entry_or_made id slug none = record {
  id = id;
  slug = slug;
  description = "";
  sources = [];
  container = false;
}
entry_or_made id slug (some entry) = entry

unfoldable pub write_entry :
    CharTables
    → List ProjectAlias
    → (id : ℕ) → ProjectEntryWrite
    → List ProjectEntry
    → ProjectEntry × List ProjectEntry
unfolding entry_or_made find_entry save_entry resolve
write_entry u aliases id payload entries =
    let slug = resolve u aliases payload.slug in
    let entry = record (entry_or_made id slug (find_entry slug entries)) {
      description = payload.description;
      sources = payload.sources;
      container = payload.container;
    } in
    (entry, save_entry entry entries)

abbrev pub slug_of : Option ProjectEntry → String
slug_of none = ""
slug_of (some e) = e.slug

-- The slugs of the entries that are no container, with their prefixes, where these are not empty.
unfoldable pub prefixes_of : String → List ProjectEntry → List (String × String)
unfolding prefix_in
prefixes_of path [] = []
prefixes_of path (e ∷ es) =
    let rest = prefixes_of path es in
    if e.container || prefix_for path e == "" then rest else (e.slug, prefix_for path e) ∷ rest

unfoldable pub described : String → List ProjectEntry → List String
unfolding prefix_in take_text
described path [] = []
described path (e ∷ es) =
    let prefix = if prefix_for path e == "" then "repository root" else prefix_for path e in
    ("- " <> (e.slug <> (" (" <> (prefix <> ("): " <> take_text description_chars e.description)))))
    ∷ described path es

unfoldable pub candidates :
    String → List ProjectEntry → List (String × String) × String × List String
unfolding prefixes_of described sharing first
candidates path entries =
    let shared = if path == "" then [] else sharing path entries in
    (prefixes_of path shared, slug_of (first (λ e. e.container) shared), described path shared)

unfoldable pub describe_line : String → Option ProjectEntry → String
unfolding take_text
describe_line slug none = "- " <> slug
describe_line slug (some e) =
    if e.description == ""
    then "- " <> slug
    else ("- " <> (slug <> (": " <> take_text description_chars e.description)))

unfoldable pub describe : List String → List ProjectEntry → List String
unfolding describe_line find_entry
describe [] entries = []
describe (slug ∷ slugs) entries =
    describe_line slug (find_entry slug entries) ∷ describe slugs entries

abbrev pub paths_of : List EntrySource → List String
paths_of [] = []
paths_of (s ∷ ss) = s.path ∷ paths_of ss

-- `[*holder.sources, *(row for row in entry.sources if … not in known)]`
unfoldable pub merged_sources : List EntrySource → List EntrySource → List EntrySource
unfolding keep
merged_sources held moved = held ++ keep (λ s. not (contains (paths_of held) s.path)) moved

unfoldable pub carried_entry :
    String → ProjectEntry → Option ProjectEntry → List ProjectEntry → List ProjectEntry
unfolding save_entry merged_sources delete_where
carried_entry moved_to entry none entries = save_entry (record entry { slug = moved_to }) entries
carried_entry moved_to entry (some holder) entries =
    let merged = record holder { sources = merged_sources holder.sources entry.sources } in
    delete_where (λ e. eqb e.id entry.id) (save_entry merged entries)

unfoldable pub carry_found : String → Option ProjectEntry → List ProjectEntry → List ProjectEntry
unfolding carried_entry find_entry
carry_found moved_to none entries = entries
carry_found moved_to (some entry) entries =
    carried_entry moved_to entry (find_entry moved_to entries) entries

unfoldable pub carry_entry : (source moved_to : String) → List ProjectEntry → List ProjectEntry
unfolding carry_found find_entry
carry_entry source moved_to entries = carry_found moved_to (find_entry source entries) entries
