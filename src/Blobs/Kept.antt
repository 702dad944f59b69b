-- ===== src/Blobs/Kept.antt =====
-- What the operations of backend/services/blobs.py leave of the files that they find.
use knowledgebase_storage.Common.{
  ℕ, String, ◌≡◌, refl, sym, subst, inl, inr, Bool, true, false, not, ◌||◌, Option, none, some,
  List, [], ◌∷◌, arith, ◌==◌, eqb, Bool-cases, is_none, is_some, length, All, contains,
}
use knowledgebase_storage.Common.Table.Laws.{All-put, All-delete_where}
use knowledgebase_storage.Blobs.{
  Bytes, StoredFile, named, Blob, Blobs, exists_file, write_whole, remove, find_blob, chunk_bytes,
  complete_locked, missing, reopened,
}
use knowledgebase_storage.Blobs.Service.{
  release_files, digest_of, complete_found, complete_checked, assemble, assembled, inspect_found,
}

module _ (hash : Bytes → String) where
  -- Every file has the digest that it is named by.
  abbrev pub IsGenuine : List StoredFile → Type 0
  IsGenuine files = All (λ f. (hash f.content == f.name) ≡ true) files

  write_whole-IsGenuine :
      (name : String) (content : Bytes) (files : List StoredFile)
      → (hash content == name) ≡ true
      → IsGenuine files
      → IsGenuine (write_whole name content files)
  unfolding write_whole
  write_whole-IsGenuine name content files h all =
      All-put (λ f. (hash f.content == f.name) ≡ true) (λ a b. a.name == b.name)
        (record { name = name; content = content }) files h all

  pub release_files-IsGenuine :
      (ds referenced : List String) (files : List StoredFile)
      → IsGenuine files
      → IsGenuine (release_files ds referenced files)
  unfolding release_files remove
  release_files-IsGenuine [] referenced files all = all
  release_files-IsGenuine (d ∷ ds) referenced files all =
      elim (Bool-cases (contains referenced d)) [
        | inl e ↦ rw e (release_files-IsGenuine ds referenced files all)
        | inr e ↦ rw e (
            All-delete_where (λ f. (hash f.content == f.name) ≡ true) (named d)
              (release_files ds referenced files) (release_files-IsGenuine ds referenced files all))
      ]

  assembled-IsGenuine :
      (blob : Blob) (o : Option Bytes) (s : Blobs)
      → IsGenuine s.files
      → IsGenuine (assembled hash blob o s).1.files
  unfolding assembled
  assembled-IsGenuine blob none s all = all
  assembled-IsGenuine blob (some content) s all = elim (Bool-cases (hash content == blob.digest)) [
    | inl e ↦ rw e (write_whole-IsGenuine blob.digest content s.files e all)
    | inr e ↦ rw e all
  ]

  assemble-IsGenuine :
      (blob : Blob) (s : Blobs) → IsGenuine s.files → IsGenuine (assemble hash blob s).1.files
  unfolding assemble
  assemble-IsGenuine blob s all = elim (Bool-cases (exists_file blob.digest s.files)) [
    | inl e ↦ rw e all
    | inr e ↦ rw e (assembled-IsGenuine blob (chunk_bytes blob.chunks s.chunks) s all)
  ]

  pub reopened-files :
      (blob : Blob) (made : Bool) (s : Blobs) → (reopened blob (made, s)).1.files ≡ s.files
  unfolding reopened
  reopened-files blob true s = refl
  reopened-files blob false s = refl

  pub inspect_found-IsGenuine :
      (o : Option Blob) (s : Blobs) → IsGenuine s.files → IsGenuine (inspect_found hash o s).1.files
  unfolding inspect_found
  inspect_found-IsGenuine none s all = all
  inspect_found-IsGenuine (some blob) s all = elim (Bool-cases (is_none blob.completed_at)) [
    | inl e ↦ rw e all
    | inr e ↦ rw e (
        subst IsGenuine
          (sym (reopened-files blob (assemble hash blob s).0 (assemble hash blob s).1))
          (assemble-IsGenuine blob s all))
  ]

  complete_locked-files :
      (now : ℕ) (cs : List String) (o : Option Blob) (s : Blobs)
      → (complete_locked now cs o s).1.files ≡ s.files
  unfolding complete_locked
  complete_locked-files now cs none s = refl
  complete_locked-files now cs (some locked) s = ground arith

  complete_checked-files :
      (now : ℕ) (blob : Blob) (o : Option (ℕ × String)) (later : List Blob) (s : Blobs)
      → (complete_checked hash now blob o later s).1.files ≡ s.files
  unfolding complete_checked
  complete_checked-files now blob none later s = refl
  complete_checked-files now blob (some (total, whole)) later s =
      let last =
        complete_locked-files now blob.chunks (find_blob blob.digest later)
          (record s { rows = later }) in
      elim (Bool-cases (not (eqb total blob.byte_size) || not (whole == blob.digest))) [
        | inl e ↦ rw e refl
        | inr e ↦ rw e last
      ]

  pub complete_found-files :
      (now : ℕ) (o : Option Blob) (later : List Blob) (s : Blobs)
      → (complete_found hash now o later s).1.files ≡ s.files
  unfolding complete_found
  complete_found-files now none later s = refl
  complete_found-files now (some blob) later s =
      let checked = complete_checked-files now blob (digest_of hash blob.chunks s.chunks) later s in
      elim (Bool-cases (is_some blob.completed_at)) [
        | inl e ↦ rw e refl
        | inr e ↦ elim (Bool-cases (eqb (length (missing blob.chunks s.chunks)) 0)) [
          | inl f ↦ rw (e, f) checked
          | inr f ↦ rw (e, f) refl
        ]
      ]
