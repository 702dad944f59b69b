-- ===== src/Entries/Sources.antt =====
-- The sources of merged projects: `carry_entry` of backend/services/projects.py.
use knowledgebase_storage.Common.{
  String, ◌≡◌, refl, ◌∙◌, subst, inl, inr, true, not, ◌||◌, List, [], ◌∷◌, ◌++◌, arith, ◌==◌,
  eq_iff, Bool-cases, keep, contains,
}
use knowledgebase_storage.Entries.{EntrySource, paths_of, merged_sources}

contains-paths_of_append :
    (xs ys : List EntrySource) (p : String)
    → contains (paths_of (xs ++ ys)) p ≡ (contains (paths_of xs) p || contains (paths_of ys) p)
contains-paths_of_append [] ys p = refl
contains-paths_of_append (x ∷ xs) ys p = ground (arith, contains-paths_of_append xs ys p)

-- the paths that are new, beside those that are known
new_paths :
    (known : List String) (moved : List EntrySource) (p : String)
    → (contains known p || contains (paths_of (keep (λ s. not (contains known s.path)) moved)) p)
      ≡ (contains known p || contains (paths_of moved) p)
unfolding keep
new_paths known [] p = refl
new_paths known (s ∷ ss) p = elim (Bool-cases (contains known s.path)) [
  | inl e ↦ elim (Bool-cases (s.path == p)) [
    | inl f ↦ rw (e, f, subst (λ q. contains known q ≡ true) ((eq_iff s.path p).0 f) e) refl
    | inr f ↦ rw (e, f) (new_paths known ss p)
  ]
  | inr e ↦ rw e (ground (arith, new_paths known ss p))
]

-- The sources of two projects that are merged lie at the paths of either, and at no others.
merged_sources_lem :
    (held moved : List EntrySource) (p : String)
    → contains (paths_of (merged_sources held moved)) p
      ≡ (contains (paths_of held) p || contains (paths_of moved) p)
unfolding merged_sources
merged_sources_lem held moved p =
    contains-paths_of_append held (keep (λ s. not (contains (paths_of held) s.path)) moved) p
    ∙ new_paths (paths_of held) moved p
