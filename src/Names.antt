-- ===== src/Names.antt =====
-- backend/consts/notes.py: project names, slugs and the project that a note's path belongs to.
-- Python's tables of characters are a parameter: `is_word` is `\w`, `lower` is `str.lower`, and
-- `fold` is what a case-insensitive pattern compares by.
pub mod Laws
use Prim.Native.Char.{Char, code}
use Prim.Native.String as Text
use knowledgebase_storage.Common.{
  ℕ, zero, suc, ◌+◌, ◌-◌, ◌*◌, ◌/◌, ◌%◌, ◌^◌, ◌≤◌, ◌<◌, min, max, String, ◌≡◌, refl, sym, ap, ◌∙◌,
  subst, ◌≢◌, ◌↔◌, ◌⊎◌, inl, inr, Bool, true, false, not, ◌&&◌, ◌||◌, Option, none, some, List, [],
  ◌∷◌, ◌++◌, map, reverse, Memᴰ, arith, ◌==◌, eq_iff, eq_refl, ltb, leb, eqb, if◌then◌else◌,
  Bool-cases, Option-cases, is_none, is_some, holds_text, or_text, take_text, ◌<>◌, length, take,
  All, keep, contains,
}

pub record CharTables : Type 0 where
  pub is_space : Char → Bool
  pub is_word : Char → Bool
  pub lower : String → String
  pub fold : Char → Char

abbrev pub log_dir : String
log_dir = "log"

abbrev pub memory_dir : String
memory_dir = "memory"

abbrev pub archive_dir : String
archive_dir = "archive"

abbrev pub unfiled : String
unfiled = "_unfiled"

abbrev pub projects_root : String
projects_root = "projects"

abbrev pub reserved_segments : List String
reserved_segments = log_dir ∷ memory_dir ∷ archive_dir ∷ []

abbrev pub char_eq : Char → Char → Bool
char_eq c d = eqb (code c) (code d)

-- `s.lstrip(…)` of the characters that pass the test
unfoldable pub strip_left : (Char → Bool) → String → String
strip_left test Text.[] = ""
strip_left test (Text.◌∷◌ c s) =
    let rest = strip_left test s in if test c then rest else (Text.◌∷◌ c s)

-- `s.rstrip(…)`
unfoldable pub strip_right : (Char → Bool) → String → String
strip_right test Text.[] = ""
strip_right test (Text.◌∷◌ c s) =
    let rest = strip_right test s in if rest == "" && test c then "" else (Text.◌∷◌ c rest)

unfoldable pub strip : (Char → Bool) → String → String
unfolding strip_left strip_right
strip test s = strip_right test (strip_left test s)

abbrev pub is_dash : Char → Bool
is_dash c = char_eq c "-"

module _ (u : CharTables) where
  -- the characters that `_UNSAFE` leaves: `[\w.-]`
  unfoldable pub is_safe : Char → Bool
  is_safe c = u.is_word c || (char_eq c "." || char_eq c "-")

  -- `_UNSAFE.sub("-", s)`: each run of other characters is one dash; `inside` says that the
  -- character before was in such a run
  unfoldable pub dashed : Bool → String → String
  unfolding is_safe
  dashed inside Text.[] = ""
  dashed inside (Text.◌∷◌ c s) =
      let kept = dashed false s in
      let gone = dashed true s in
      if is_safe c then (Text.◌∷◌ c kept) else if inside then gone else (Text.◌∷◌ "-" gone)

  -- `… or "unknown"`, and the suffix that keeps a project's name off the reserved directories
  unfoldable pub slugify : String → String
  unfolding dashed strip
  slugify value =
      let slug = u.lower (strip is_dash (dashed false (strip u.is_space value))) in
      let named = if slug == "" then "unknown" else slug in
      if contains reserved_segments named then named <> "-project" else named

-- `s.startswith(prefix)`
unfoldable pub begins : String → String → Bool
begins s Text.[] = true
begins Text.[] (Text.◌∷◌ d t) = false
begins (Text.◌∷◌ c s) (Text.◌∷◌ d t) = char_eq c d && begins s t

-- `part in s`
unfoldable pub has_part : String → String → Bool
unfolding begins
has_part part Text.[] = part == ""
has_part part (Text.◌∷◌ c s) = begins (Text.◌∷◌ c s) part || has_part part s

abbrev pub extensions : List String
extensions =
    ".pdf" ∷ ".md" ∷ ".txt" ∷ ".png" ∷ ".jpg" ∷ ".jpeg" ∷ ".gif" ∷ ".svg" ∷ ".csv" ∷ ".xls"
    ∷ ".xlsx" ∷ ".doc" ∷ ".docx" ∷ ".zip" ∷ ".htm" ∷ ".html" ∷ ".json" ∷ ".yml" ∷ ".yaml" ∷ []

module _ (u : CharTables) where
  -- equal up to case
  unfoldable pub alike : String → String → Bool
  alike Text.[] Text.[] = true
  alike Text.[] (Text.◌∷◌ d t) = false
  alike (Text.◌∷◌ c s) Text.[] = false
  alike (Text.◌∷◌ c s) (Text.◌∷◌ d t) = char_eq (u.fold c) (u.fold d) && alike s t

  unfoldable pub alike_any : List String → String → Bool
  unfolding alike
  alike_any [] s = false
  alike_any (e ∷ es) s = alike e s || alike_any es s

  -- `_FILENAME.search(name)`: some end of the name is one of the extensions
  unfoldable pub is_filename : String → Bool
  unfolding alike_any
  is_filename Text.[] = false
  is_filename (Text.◌∷◌ c s) = alike_any extensions (Text.◌∷◌ c s) || is_filename s

  unfoldable pub is_unnamed : String → Bool
  unfolding has_part
  is_unnamed name =
      name == ""
      || has_part "://" name
      || begins name "http"
      || begins name "/"
      || begins name "~"
      || begins name "."
      || has_part "/" name
      || has_part "\\" name

  unfoldable pub named_project : String → String
  unfolding strip is_unnamed is_filename
  named_project value =
      let name = strip u.is_space value in
      if is_unnamed name then unfiled else if is_filename name then unfiled else name

-- `relative_path.split("/")`: the part before the first slash, and what follows it
unfoldable pub first_part : String → String × Option String
first_part Text.[] = ("", none)
first_part (Text.◌∷◌ c s) =
    let (part, rest) = first_part s in
    if char_eq c "/" then ("", some s) else (Text.◌∷◌ c part, rest)

-- `project_of` on the second part and what follows it: fewer than three parts are unfiled
unfoldable pub project_in : String × Option String → String
project_in (name, none) = unfiled
project_in (name, some rest) = if contains reserved_segments name then unfiled else name

unfoldable pub project_below : String × Option String → String
unfolding project_in first_part
project_below (root, none) = unfiled
project_below (root, some rest) =
    if root == projects_root then project_in (first_part rest) else unfiled

unfoldable pub project_of : String → String
unfolding project_below first_part
project_of path = project_below (first_part path)
