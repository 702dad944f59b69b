-- ===== src/Names/Laws.antt =====
-- The slugs of `slugify` and the paths of `project_of`, in backend/consts/notes.py.
use Prim.Native.Char.{Char}
use Prim.Native.String as Text
use text.Mathlib.TextLemmas.{nil-append, cons-append}
use knowledgebase_storage.Common.{
  String, ◌≡◌, refl, inl, inr, Bool, true, false, not, ◌&&◌, some, arith, ◌==◌, eq_iff,
  if◌then◌else◌, Bool-cases, ◌<>◌, contains,
}
use knowledgebase_storage.Names.{
  CharTables, reserved_segments, log_dir, memory_dir, archive_dir, projects_root, char_eq,
  strip_left, strip_right, strip, is_dash, is_safe, dashed, slugify, first_part, project_in,
  project_below, project_of,
}

-- no slash stands in the text
unfoldable pub slashless : String → Bool
slashless Text.[] = true
slashless (Text.◌∷◌ c s) = not (char_eq c "/") && slashless s

strip_left-slashless :
    (test : Char → Bool) (s : String) → slashless s ≡ true → slashless (strip_left test s) ≡ true
unfolding slashless strip_left
strip_left-slashless test Text.[] h = refl
strip_left-slashless test (Text.◌∷◌ c s) h = ground (arith, strip_left-slashless test s, h)

strip_right-slashless :
    (test : Char → Bool) (s : String) → slashless s ≡ true → slashless (strip_right test s) ≡ true
unfolding slashless strip_right
strip_right-slashless test Text.[] h = refl
strip_right-slashless test (Text.◌∷◌ c s) h =
    elim (Bool-cases (strip_right test s == "" && test c)) [
      | inl e ↦ rw e refl
      | inr e ↦ rw e (ground (arith, strip_right-slashless test s, h))
    ]

append-slashless :
    (s t : String) → slashless s ≡ true → slashless t ≡ true → slashless (s <> t) ≡ true
unfolding slashless
append-slashless Text.[] t h k = rw (nil-append t) k
append-slashless (Text.◌∷◌ c s) t h k =
    rw (cons-append c s t) (ground (arith, append-slashless s t, h))

first_part-append :
    (s t : String) → slashless s ≡ true → first_part (s <> (Text.◌∷◌ "/" t)) ≡ (s, some t)
unfolding slashless first_part
first_part-append Text.[] t h = rw (nil-append (Text.◌∷◌ "/" t)) refl
first_part-append (Text.◌∷◌ c s) t h =
    let e = first_part-append s t (ground (arith, h)) in
    rw (cons-append c s (Text.◌∷◌ "/" t)) (rw e (rw (other_char) refl))
  where
    other_char : char_eq c "/" ≡ false
    other_char = ground (arith, h)

-- What `slugify` promises.
abbrev pub IsSlug : String → Type 0
IsSlug s = ((s == "") ≡ false) × (contains reserved_segments s ≡ false) × (slashless s ≡ true)

kept_off :
    (name : String)
    → (name == "") ≡ false
    → slashless name ≡ true
    → IsSlug (if contains reserved_segments name then name <> "-project" else name)
unfolding slashless
kept_off name full whole = elim (Bool-cases (log_dir == name)) [
  | inl e ↦ rw⁻¹ ((eq_iff log_dir name).0 e) (refl, refl, refl)
  | inr not_log ↦ elim (Bool-cases (memory_dir == name)) [
    | inl e ↦ rw⁻¹ ((eq_iff memory_dir name).0 e) (refl, refl, refl)
    | inr not_memory ↦ elim (Bool-cases (archive_dir == name)) [
      | inl e ↦ rw⁻¹ ((eq_iff archive_dir name).0 e) (refl, refl, refl)
      | inr not_archive ↦
          rw (not_log, not_memory, not_archive)
            (full, ground (arith, not_log, not_memory, not_archive), whole)
    ]
  ]
]

named-IsSlug :
    (slug : String)
    → slashless slug ≡ true
    → IsSlug (
        let named = if slug == "" then "unknown" else slug in
        if contains reserved_segments named then named <> "-project" else named)
unfolding slashless
named-IsSlug slug whole = elim (Bool-cases (slug == "")) [
  | inl e ↦ rw e (kept_off "unknown" refl refl)
  | inr e ↦ rw e (kept_off slug e whole)
]

module _ (u : CharTables) (apart : (c : Char) → char_eq c "/" ≡ true → u.is_word c ≡ false) where
  is_safe-no_slash : (c : Char) → is_safe u c ≡ true → char_eq c "/" ≡ false
  unfolding is_safe
  is_safe-no_slash c h = elim (Bool-cases (char_eq c "/")) [
    | inl e ↦ absurd (let w = apart c e in ground (arith, h, e, w))
    | inr e ↦ e
  ]

  dashed-slashless : (inside : Bool) (s : String) → slashless (dashed u inside s) ≡ true
  unfolding slashless dashed
  dashed-slashless inside Text.[] = refl
  dashed-slashless inside (Text.◌∷◌ c s) = elim (Bool-cases (is_safe u c)) [
    | inl e ↦ rw e (ground (arith, is_safe-no_slash c e, dashed-slashless false s))
    | inr e ↦ rw e (ground (arith, dashed-slashless true s))
  ]

  -- A slug is never empty, is no reserved directory, and holds no slash, where `\w` does not match a
  -- slash and lowering a text that holds none gives none.
  slugify_lem :
      ((s : String) → slashless s ≡ true → slashless (u.lower s) ≡ true)
      → (value : String) → IsSlug (slugify u value)
  unfolding slugify strip
  slugify_lem lowers value =
      named-IsSlug (u.lower (strip is_dash (dashed u false (strip u.is_space value)))) (
        lowers _ (
          strip_right-slashless is_dash _
            (strip_left-slashless is_dash _ (dashed-slashless false (strip u.is_space value)))))

  -- A file that is put below the directory of the project that a name stands for is found to belong to
  -- that project, where `\w` does not match a slash and lowering a text that holds none gives none.
  pub project_of-slugify :
      ((s : String) → slashless s ≡ true → slashless (u.lower s) ≡ true)
      → (value file : String)
      → project_of (projects_root <> (Text.◌∷◌ "/" (slugify u value <> (Text.◌∷◌ "/" file))))
        ≡ slugify u value
  unfolding project_of project_below project_in slashless
  project_of-slugify lowers value file =
      let (full, free, whole) = slugify_lem lowers value in
      rw
        (
          first_part-append projects_root (slugify u value <> (Text.◌∷◌ "/" file)) refl,
          first_part-append (slugify u value) file whole,
          free,
        )
        refl
