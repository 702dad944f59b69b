-- ===== src/Hook/Memories/Pull.antt =====
-- `pull_memories` of hooks/kbstore_hook.py, file by file, against a merge of three versions.
use knowledgebase_storage.Common.{
  String, subst, ◌≡◌, refl, ◌∙◌, inl, inr, Bool, true, false, not, ◌&&◌, ◌||◌, Option, none, some,
  is_none, is_some, List, [], ◌∷◌, arith, ◌==◌, eq_iff, eq_refl, holds_text, if◌then◌else◌,
  Bool-cases,
}
use knowledgebase_storage.Common.Dict.{lookup, remove, lookup-insert, lookup-remove}
use knowledgebase_storage.Hook.Memories.{Pulled, edited_here, pull_one, pull_each}

-- Each name stands once.
abbrev pub DistinctNames : List (String × String) → Type 0
DistinctNames [] = Unit
DistinctNames ((name, text) ∷ rest) = (lookup name rest ≡ none) × DistinctNames rest

remove-DistinctNames :
    (key : String) (d : List (String × String)) → DistinctNames d → DistinctNames (remove key d)
unfolding remove
remove-DistinctNames key [] h = tt
remove-DistinctNames key ((name, text) ∷ rest) h = elim (Bool-cases (name == key)) [
  | inl e ↦ rw e (remove-DistinctNames key rest h.1)
  | inr e ↦
      rw e
        ((lookup-remove name key rest ∙ rw h.0 (ground arith)), remove-DistinctNames key rest h.1)
]

pub apart :
    (n name content : String) (rest : List (String × String))
    → lookup n ((name, content) ∷ rest) ≡ none
    → ((name == n) ≡ false) × (lookup n rest ≡ none)
unfolding lookup
apart n name content rest h = elim (Bool-cases (name == n)) [
  | inl e ↦ absurd (let no : some content ≡ none = rw (e, lookup) at h in cc)
  | inr e ↦ (e, rw (e, lookup) at h)
]

module _ (hash : String → String) where
  -- what `pull_one` does to the file it is about
  abbrev pub met_file : (unmet file base : Option String) → String → Option String
  met_file unmet file base content =
      if edited_here hash unmet base content || (is_none unmet && is_some base)
      then file
      else if holds_text unmet content
      then file
      else some content

  abbrev pub met_base : (unmet base : Option String) → String → Option String
  met_base unmet base content =
      if edited_here hash unmet base content || (is_none unmet && is_some base)
      then base
      else some (hash content)

  module _ (plain : String → Bool) where
    pull_one-unmet :
        (n name content : String) (s : Pulled)
        → lookup n (pull_one hash plain name content s).unmet
          ≡ (if name == n then none else lookup n s.unmet)
    unfolding pull_one
    pull_one-unmet n name content s = ground (arith, lookup-remove n name s.unmet)

    pull_one-met :
        (n content : String) (s : Pulled)
        → plain n ≡ true
        → (lookup n (pull_one hash plain n content s).files
            ≡ met_file (lookup n s.unmet) (lookup n s.files) (lookup n s.synced) content)
          × (lookup n (pull_one hash plain n content s).synced
              ≡ met_base (lookup n s.unmet) (lookup n s.synced) content)
    unfolding pull_one
    pull_one-met n content s p = (
      ground (arith, p, lookup-insert n n content s.files, eq_refl n),
      ground (arith, p, lookup-insert n n (hash content) s.synced, eq_refl n),
    )

    pub pull_one-other :
        (n name content : String) (s : Pulled)
        → (name == n) ≡ false
        → (lookup n (pull_one hash plain name content s).files ≡ lookup n s.files)
          × (lookup n (pull_one hash plain name content s).synced ≡ lookup n s.synced)
    unfolding pull_one
    pull_one-other n name content s h = (
      ground (arith, h, lookup-insert n name content s.files),
      ground (arith, h, lookup-insert n name (hash content) s.synced),
    )

    pull_one-DistinctNames :
        (name content : String) (s : Pulled)
        → DistinctNames s.unmet
        → DistinctNames (pull_one hash plain name content s).unmet
    unfolding pull_one
    pull_one-DistinctNames name content s d =
        elim (Bool-cases (
          edited_here hash (lookup name s.unmet) (lookup name s.synced) content
          || (is_none (lookup name s.unmet) && is_some (lookup name s.synced))
          || not (plain name))) [
            | inl e ↦ rw e (remove-DistinctNames name s.unmet d)
            | inr e ↦ rw e (remove-DistinctNames name s.unmet d)
          ]

    pub pull_each-DistinctNames :
        (items : List (String × String)) (s : Pulled)
        → DistinctNames s.unmet
        → DistinctNames (pull_each hash plain items s).unmet
    unfolding pull_each
    pull_each-DistinctNames [] s d = d
    pull_each-DistinctNames ((name, content) ∷ rest) s d =
        pull_each-DistinctNames rest (pull_one hash plain name content s)
          (pull_one-DistinctNames name content s d)

    -- Nothing changes about a file of which the server says nothing.
    pub record Same (n : String) (s t : Pulled) : Type 0 where
      pub unmet_same : lookup n t.unmet ≡ lookup n s.unmet
      pub file_same : lookup n t.files ≡ lookup n s.files
      pub base_same : lookup n t.synced ≡ lookup n s.synced

    pub pull_each-Same :
        (n : String) (items : List (String × String)) (s : Pulled)
        → lookup n items ≡ none
        → Same n s (pull_each hash plain items s)
    unfolding pull_each
    pull_each-Same n [] s h = record { unmet_same = refl; file_same = refl; base_same = refl }
    pull_each-Same n ((name, content) ∷ rest) s h =
        let (e, later) = apart n name content rest h in
        let t = pull_one hash plain name content s in
        let r = pull_each-Same n rest t later in
        let (files, bases) = pull_one-other n name content s e in
        record {
          unmet_same = r.unmet_same ∙ pull_one-unmet n name content s ∙ rw e refl;
          file_same = r.file_same ∙ files;
          base_same = r.base_same ∙ bases;
        }

    abbrev pub MetBy : (n there : String) (s t : Pulled) → Type 0
    MetBy n there s t =
        (lookup n t.unmet ≡ none)
        × (lookup n t.files
            ≡ met_file (lookup n s.unmet) (lookup n s.files) (lookup n s.synced) there)
        × (lookup n t.synced ≡ met_base (lookup n s.unmet) (lookup n s.synced) there)

    met_here :
        (n there : String) (rest : List (String × String)) (s : Pulled)
        → plain n ≡ true
        → lookup n rest ≡ none
        → MetBy n there s (pull_each hash plain rest (pull_one hash plain n there s))
    met_here n there rest s p none_left =
        let t = pull_one hash plain n there s in
        let r = pull_each-Same n rest t none_left in
        let (files, bases) = pull_one-met n there s p in
        (
          r.unmet_same ∙ pull_one-unmet n n there s ∙ rw (eq_refl n) refl,
          r.file_same ∙ files,
          r.base_same ∙ bases,
        )

    met_later :
        (n there name content : String) (s t : Pulled)
        → (name == n) ≡ false
        → MetBy n there (pull_one hash plain name content s) t
        → MetBy n there s t
    met_later n there name content s t e (u, f, b) =
        let (files, bases) = pull_one-other n name content s e in
        let left : lookup n (pull_one hash plain name content s).unmet ≡ lookup n s.unmet =
          pull_one-unmet n name content s ∙ rw e refl in
        (u, f ∙ rw (files, bases, left) refl, b ∙ rw (bases, left) refl)

    pub pull_each-met :
        (n there : String) (items : List (String × String)) (s : Pulled)
        → plain n ≡ true
        → DistinctNames items
        → lookup n items ≡ some there
        → MetBy n there s (pull_each hash plain items s)
    unfolding pull_each lookup
    pull_each-met n there [] s p d h = absurd (cc)
    pull_each-met n there ((name, content) ∷ rest) s p d h = elim (Bool-cases (name == n)) [
      | inl e ↦
          let same : name ≡ n = (eq_iff name n).0 e in
          let found : some content ≡ some there = rw (e, lookup) at h in
          let text : content ≡ there = cc in
          let none_left : lookup n rest ≡ none = subst (λ m. lookup m rest ≡ none) same d.0 in
          rw (same, text) (met_here n there rest s p none_left)
      | inr e ↦
          met_later n there name content s
            (pull_each hash plain rest (pull_one hash plain name content s)) e
            (pull_each-met n there rest (pull_one hash plain name content s) p d.1
              (rw (e, lookup) at h))
    ]
