-- ===== src/Hook/Memories/Push.antt =====
-- What `push_memories` of hooks/kbstore_hook.py sends, and what `sync_memories` of backend/services/notes.py
-- makes of it.
use knowledgebase_storage.Common.{
  String, ◌≡◌, refl, ◌∙◌, subst, inl, inr, Bool, true, not, Option, none, some, is_none, List, [],
  ◌∷◌, arith, ◌==◌, eq_iff, eq_refl, holds_text, if◌then◌else◌, Bool-cases, Option-cases, keep,
}
use knowledgebase_storage.Common.Dict.{lookup, insert, remove, lookup-insert, lookup-remove}
use knowledgebase_storage.Hook.Memories.{
  digests_of, changed_files, deleted_names, write_each, delete_each, sync_memories,
}
use knowledgebase_storage.Hook.Memories.Pull.{DistinctNames, apart}

-- A name that is not in the list is not in what is kept of it.
keep-none :
    (n : String) (stays : String × String → Bool) (d : List (String × String))
    → lookup n d ≡ none
    → lookup n (keep stays d) ≡ none
unfolding lookup keep
keep-none n stays [] h = refl
keep-none n stays ((name, text) ∷ rest) h =
    let (e, later) = apart n name text rest h in
    elim (Bool-cases (stays (name, text))) [
      | inl f ↦ rw (f, e, lookup) (keep-none n stays rest later)
      | inr f ↦ rw f (keep-none n stays rest later)
    ]

-- The name at hand, and no other place of it.
here_only :
    (n name text value : String) (rest : List (String × String))
    → (name == n) ≡ true
    → lookup name rest ≡ none
    → lookup n ((name, text) ∷ rest) ≡ some value
    → (name ≡ n) × (text ≡ value) × (lookup n rest ≡ none)
unfolding lookup
here_only n name text value rest e left h =
    let same : name ≡ n = (eq_iff name n).0 e in
    let found : some text ≡ some value = rw (e, lookup) at h in
    (same, cc, subst (λ m. lookup m rest ≡ none) same left)

keep-some :
    (n value : String) (stays : String × String → Bool) (d : List (String × String))
    → DistinctNames d
    → lookup n d ≡ some value
    → lookup n (keep stays d) ≡ (if stays (n, value) then some value else none)
unfolding lookup keep
keep-some n value stays [] d h = absurd (cc)
keep-some n value stays ((name, text) ∷ rest) d h = elim (Bool-cases (name == n)) [
  | inl e ↦
      let (same, as_found, left) = here_only n name text value rest e d.0 h in
      rw (same, as_found)
        (elim (Bool-cases (stays (n, value))) [
          | inl f ↦ rw (f, lookup, eq_refl n) refl
          | inr f ↦ rw f (keep-none n stays rest left)
        ])
  | inr e ↦
      let ih = keep-some n value stays rest d.1 (rw (e, lookup) at h) in
      elim (Bool-cases (stays (name, text))) [ inl f ↦ rw (f, e, lookup) ih | inr f ↦ rw f ih ]
]

keep-DistinctNames :
    (stays : String × String → Bool) (d : List (String × String))
    → DistinctNames d
    → DistinctNames (keep stays d)
unfolding keep
keep-DistinctNames stays [] h = tt
keep-DistinctNames stays ((name, text) ∷ rest) h = elim (Bool-cases (stays (name, text))) [
  | inl f ↦ rw f (keep-none name stays rest h.0, keep-DistinctNames stays rest h.1)
  | inr f ↦ rw f (keep-DistinctNames stays rest h.1)
]

module _ (render : String → String → String) where
  write_each-none :
      (n : String) (files dir : List (String × String))
      → lookup n files ≡ none
      → lookup n (write_each render files dir) ≡ lookup n dir
  unfolding write_each
  write_each-none n [] dir h = refl
  write_each-none n ((name, text) ∷ rest) dir h =
      let (e, later) = apart n name text rest h in
      write_each-none n rest (insert name (render name text) dir) later
      ∙ lookup-insert n name (render name text) dir
      ∙ rw e refl

  write_each-some :
      (n value : String) (files dir : List (String × String))
      → DistinctNames files
      → lookup n files ≡ some value
      → lookup n (write_each render files dir) ≡ some (render n value)
  unfolding write_each lookup
  write_each-some n value [] dir d h =
      absurd (let no : none ≡ some value = unfold lookup in h in cc)
  write_each-some n value ((name, text) ∷ rest) dir d h = elim (Bool-cases (name == n)) [
    | inl e ↦
        let (same, as_found, left) = here_only n name text value rest e d.0 h in
        write_each-none n rest (insert name (render name text) dir) left
        ∙ lookup-insert n name (render name text) dir
        ∙ rw (e, same, as_found) refl
    | inr e ↦
        write_each-some n value rest (insert name (render name text) dir) d.1 (rw (e, lookup) at h)
  ]

delete_each-gone :
    (n : String) (names dir : List (String × String))
    → lookup n dir ≡ none
    → lookup n (delete_each names dir) ≡ none
unfolding delete_each
delete_each-gone n [] dir h = h
delete_each-gone n ((name, digest) ∷ rest) dir h =
    delete_each-gone n rest (remove name dir) (lookup-remove n name dir ∙ rw h (ground arith))

delete_each-none :
    (n : String) (names dir : List (String × String))
    → lookup n names ≡ none
    → lookup n (delete_each names dir) ≡ lookup n dir
unfolding delete_each
delete_each-none n [] dir h = refl
delete_each-none n ((name, digest) ∷ rest) dir h =
    let (e, later) = apart n name digest rest h in
    delete_each-none n rest (remove name dir) later ∙ lookup-remove n name dir ∙ rw e refl

delete_each-some :
    (n value : String) (names dir : List (String × String))
    → lookup n names ≡ some value
    → lookup n (delete_each names dir) ≡ none
unfolding delete_each lookup
delete_each-some n value [] dir h = absurd (let no : none ≡ some value = unfold lookup in h in cc)
delete_each-some n value ((name, digest) ∷ rest) dir h = elim (Bool-cases (name == n)) [
  | inl e ↦ delete_each-gone n rest (remove name dir) (lookup-remove n name dir ∙ rw e refl)
  | inr e ↦ delete_each-some n value rest (remove name dir) (rw (e, lookup) at h)
]

module _ (hash : String → String) where
  lookup-digests_of :
      (n : String) (files : List (String × String))
      → is_none (lookup n (digests_of hash files)) ≡ is_none (lookup n files)
  unfolding digests_of lookup
  lookup-digests_of n [] = refl
  lookup-digests_of n ((name, text) ∷ rest) = elim (Bool-cases (name == n)) [
    | inl e ↦ rw e refl
    | inr e ↦ rw e (lookup-digests_of n rest)
  ]

  -- a name that is here is not among the deleted ones
  deleted-here :
      (n here : String) (files synced : List (String × String))
      → DistinctNames synced
      → lookup n files ≡ some here
      → lookup n
          (keep (λ (f : String × String). is_none (lookup f.0 (digests_of hash files))) synced)
        ≡ none
  deleted-here n here files synced d_synced e = elim (Option-cases (lookup n synced)) [
    | inl f ↦ keep-none n (λ g. is_none (lookup g.0 (digests_of hash files))) synced f
    | inr (digest, f) ↦
        keep-some n digest (λ g. is_none (lookup g.0 (digests_of hash files))) synced d_synced f
        ∙ rw (lookup-digests_of n files, e) refl
  ]

  -- What the server has of a file after a push: the version here where that differs from what was synced,
  -- nothing where the file is gone here, and otherwise what it had.
  abbrev pub pushed :
      (render : String → String → String)
      → String
      → (base mine theirs : Option String) → Option String
  pushed render n base (some here) theirs =
      if holds_text base (hash here) then theirs else some (render n here)
  pushed render n (some b) none theirs = none
  pushed render n none none theirs = theirs

  -- A push changes the files on the server that were edited or deleted here, and no other. A name stands
  -- once in the directory and once among the digests.
  pub sync_memories_lem :
      (render : String → String → String) (n : String) (files synced dir : List (String × String))
      → DistinctNames files
      → DistinctNames synced
      → lookup n (
          sync_memories render
            (changed_files hash synced files)
            (deleted_names hash synced (digests_of hash files))
            dir)
        ≡ pushed render n (lookup n synced) (lookup n files) (lookup n dir)
  unfolding sync_memories changed_files deleted_names
  sync_memories_lem render n files synced dir d_files d_synced =
      let digests = digests_of hash files in
      let changed = changed_files hash synced files in
      let stays : String × String → Bool = λ f. not (holds_text (lookup f.0 synced) (hash f.1)) in
      let leaves : String × String → Bool = λ f. is_none (lookup f.0 digests) in
      let distinct : DistinctNames changed = keep-DistinctNames stays files d_files in
      elim (Option-cases (lookup n files)) [
        | inl e ↦
            let written = write_each-none render n changed dir (keep-none n stays files e) in
            elim (Option-cases (lookup n synced)) [
              | inl f ↦
                  delete_each-none n (keep leaves synced) (write_each render changed dir)
                    (keep-none n leaves synced f)
                  ∙ written
                  ∙ rw (e, f) refl
              | inr (digest, f) ↦
                  delete_each-some n digest (keep leaves synced) (write_each render changed dir) (
                    keep-some n digest leaves synced d_synced f
                    ∙ rw (lookup-digests_of n files, e) refl)
                  ∙ rw (e, f) refl
            ]
        | inr (here, e) ↦
            delete_each-none n (keep leaves synced) (write_each render changed dir)
              (deleted-here n here files synced d_synced e)
            ∙ elim (Bool-cases (holds_text (lookup n synced) (hash here))) [
              | inl same ↦
                  write_each-none render n changed dir
                    (keep-some n here stays files d_files e ∙ rw same refl)
                  ∙ rw (e, same) refl
              | inr edited ↦
                  write_each-some render n here changed dir distinct
                    (keep-some n here stays files d_files e ∙ rw edited refl)
                  ∙ rw (e, edited) refl
            ]
      ]
