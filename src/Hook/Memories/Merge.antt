-- ===== src/Hook/Memories/Merge.antt =====
-- `pull_memories` of hooks/kbstore_hook.py, file by file, against a merge of three versions.
use knowledgebase_storage.Common.{
  String, ◌≡◌, refl, ap, ◌∙◌, inl, inr, Bool, true, false, Option, none, some, List, [], ◌∷◌, arith,
  ◌==◌, eq_iff, holds_text, if◌then◌else◌, Bool-cases, Option-cases,
}
use knowledgebase_storage.Common.Dict.{lookup}
use knowledgebase_storage.Hook.Memories.{
  Pulled, edited_here, pull_one, pull_each, drop_one, drop_each, pull_memories,
}
use knowledgebase_storage.Hook.Memories.Pull.{
  DistinctNames, pull_each-DistinctNames, pull_each-Same, pull_each-met, met_file, pull_one-other,
}
use knowledgebase_storage.Hook.Memories.Drops.{drop_each-none, drop_each-some, drop_one-file}

module _ (hash : String → String) where
  -- A merge of the digest of the version that both had, the version here and the version there.
  abbrev pub merged : (base mine theirs : Option String) → Option String
  merged base none none = none
  merged none none (some there) = some there
  merged (some b) none (some there) = none
  merged base (some here) none = if holds_text base (hash here) then none else some here
  merged base (some here) (some there) =
      if holds_text base (hash here) then some there else some here

  merge_of_met :
      (mine base : Option String) (there : String)
      → ((here : String) → mine ≡ some here → hash there ≡ hash here → there ≡ here)
      → met_file hash mine mine base there ≡ merged base mine (some there)
  unfolding edited_here
  merge_of_met none none there h = refl
  merge_of_met none (some b) there h = refl
  merge_of_met (some here) base there h =
      ground (arith, h here refl, eq_iff (hash there) (hash here), eq_iff here there)

  -- after a list that is not empty
  pull_listed :
      (plain : String → Bool) (n first_name first_text : String)
      (items files synced : List (String × String))
      → plain n ≡ true
      → DistinctNames ((first_name, first_text) ∷ items)
      → DistinctNames files
      → ((here there : String)
          → lookup n files ≡ some here
          → lookup n ((first_name, first_text) ∷ items) ≡ some there
          → hash there ≡ hash here
          → there ≡ here)
      → lookup n (pull_memories hash plain (some ((first_name, first_text) ∷ items)) files synced).0
        ≡ merged (lookup n synced) (lookup n files) (lookup n ((first_name, first_text) ∷ items))
  unfolding pull_memories
  pull_listed plain n first_name first_text items files synced p d_remote d_files apart_digests =
      let remote = (first_name, first_text) ∷ items in
      let s : Pulled = record { unmet = files; files = files; synced = synced } in
      let t = pull_each hash plain remote s in
      elim (Option-cases (lookup n remote)) [
        | inl none_there ↦
            let r = pull_each-Same hash plain n remote s none_there in
            elim (Option-cases (lookup n files)) [
              | inl gone ↦
                  drop_each-none hash n t.unmet t (r.unmet_same ∙ gone)
                  ∙ r.file_same
                  ∙ rw (none_there, gone) refl
              | inr (here, found) ↦
                  drop_each-some hash n here t.unmet t
                    (pull_each-DistinctNames hash plain remote s d_files) (r.unmet_same ∙ found)
                  ∙ rw (r.base_same, r.file_same, none_there, found) refl
            ]
        | inr (there, known) ↦
            let (unmet, met, base) = pull_each-met hash plain n there remote s p d_remote known in
            drop_each-none hash n t.unmet t unmet
            ∙ met
            ∙ merge_of_met (lookup n files) (lookup n synced) there
                (λ here e. apart_digests here there e known)
            ∙ rw known refl
      ]

  abbrev pub or_nothing : Option (List (String × String)) → List (String × String)
  or_nothing none = []
  or_nothing (some items) = items

  -- What is here of a file after a pull: what was here where the server could not be asked or lists
  -- nothing, and the merge otherwise.
  abbrev pub pulled :
      (n : String) → (base mine : Option String) → Option (List (String × String)) → Option String
  pulled n base mine none = mine
  pulled n base mine (some []) = mine
  pulled n base mine (some (item ∷ items)) = merged base mine (lookup n (item ∷ items))

  -- Where the server cannot be asked or lists nothing, a pull changes no file. After any other list each
  -- file whose name is plain is the merge of its three versions: a file that was edited here stays, one
  -- that was deleted here stays deleted, and any other is as the server has it, gone where it is not
  -- listed. A name stands once in the list and once in the directory, and no other text on the server
  -- has the digest of the file here.
  pub pull_memories_lem :
      (plain : String → Bool) (n : String) (remote : Option (List (String × String)))
      (files synced : List (String × String))
      → plain n ≡ true
      → DistinctNames (or_nothing remote)
      → DistinctNames files
      → ((here there : String)
          → lookup n files ≡ some here
          → lookup n (or_nothing remote) ≡ some there
          → hash there ≡ hash here
          → there ≡ here)
      → lookup n (pull_memories hash plain remote files synced).0
        ≡ pulled n (lookup n synced) (lookup n files) remote
  pull_memories_lem plain n none files synced p d_remote d_files apart_digests =
      unfold pull_memories in refl
  pull_memories_lem plain n (some []) files synced p d_remote d_files apart_digests =
      unfold pull_memories in refl
  pull_memories_lem plain n (some ((name, text) ∷ items)) files synced p d_remote d_files
        apart_digests =
      pull_listed plain n name text items files synced p d_remote d_files apart_digests

  pull_one-outside :
      (plain : String → Bool) (n name content : String) (s : Pulled)
      → plain n ≡ false
      → lookup n (pull_one hash plain name content s).files ≡ lookup n s.files
  unfolding pull_one
  pull_one-outside plain n name content s h = elim (Bool-cases (name == n)) [
    | inl e ↦ let f : plain name ≡ false = ap plain ((eq_iff name n).0 e) ∙ h in ground (arith, f)
    | inr e ↦ (pull_one-other hash plain n name content s e).0
  ]

  pull_each-outside :
      (plain : String → Bool) (n : String) (items : List (String × String)) (s : Pulled)
      → plain n ≡ false
      → lookup n (pull_each hash plain items s).files ≡ lookup n s.files
  unfolding pull_each
  pull_each-outside plain n [] s h = refl
  pull_each-outside plain n ((name, content) ∷ rest) s h =
      pull_each-outside plain n rest (pull_one hash plain name content s) h
      ∙ pull_one-outside plain n name content s h

  drop_each-outside :
      (n : String) (items : List (String × String)) (s : Pulled)
      → lookup n s.files ≡ none
      → lookup n (drop_each hash items s).files ≡ none
  unfolding drop_each
  drop_each-outside n [] s h = h
  drop_each-outside n ((name, current) ∷ rest) s h =
      drop_each-outside n rest (drop_one hash name current s)
        (drop_one-file hash n name current s ∙ rw h (ground arith))

  -- A name with a path in it is not written, whatever the server lists.
  pub pull_memories-outside :
      (plain : String → Bool) (n : String) (remote : Option (List (String × String)))
      (files synced : List (String × String))
      → plain n ≡ false
      → lookup n files ≡ none
      → lookup n (pull_memories hash plain remote files synced).0 ≡ none
  unfolding pull_memories
  pull_memories-outside plain n none files synced h absent = absent
  pull_memories-outside plain n (some []) files synced h absent = absent
  pull_memories-outside plain n (some (item ∷ items)) files synced h absent =
      let s : Pulled = record { unmet = files; files = files; synced = synced } in
      let t = pull_each hash plain (item ∷ items) s in
      drop_each-outside n t.unmet t (pull_each-outside plain n (item ∷ items) s h ∙ absent)
