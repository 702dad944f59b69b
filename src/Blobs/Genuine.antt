-- ===== src/Blobs/Genuine.antt =====
-- The files that `inspect` of backend/services/blobs.py hands to a script, over any requests and whatever
-- happens to the chunks on the disk.
use knowledgebase_storage.Common.{
  ℕ, String, ◌≡◌, refl, sym, ◌∙◌, subst, inl, inr, Bool, true, false, Option, none, some, List, [],
  ◌∷◌, arith, ◌==◌, eq_iff, eq_refl, Bool-cases, Option-cases, is_none,
}
use knowledgebase_storage.Common.Result.{ok}
use knowledgebase_storage.Common.Table.{first, put}
use knowledgebase_storage.Common.Table.Laws.{All-first, first_passes}
use knowledgebase_storage.Blobs.{
  Bytes, StoredFile, named, Blob, Blobs, BlobManifestPart, read_bytes, exists_file, write_whole,
  find_blob, add_manifest, chunk_bytes, reopened,
}
use knowledgebase_storage.Blobs.Service.{
  release_files, put_chunk, complete, assemble, assembled, inspect, inspect_found,
}
use knowledgebase_storage.Blobs.Kept.{
  IsGenuine, release_files-IsGenuine, reopened-files, inspect_found-IsGenuine, complete_found-files,
}

module _ (hash : Bytes → String) where
  -- One request, or whatever happens to the chunks on the disk.
  pub data BlobStep : Blobs → Blobs → Type 0 where
    chunk_put :
        {s : Blobs} {n : ℕ} {chunks : List StoredFile} (digest : String) (payload : Bytes)
        → put_chunk hash digest payload s.chunks ≡ ok (n, chunks)
        → BlobStep s (record s { chunks = chunks })
    manifest_added :
        {s : Blobs} {blob : Blob} {rows : List Blob} (digest : String) (offset : ℕ)
        (part : BlobManifestPart)
        → add_manifest digest offset part s.rows ≡ ok (blob, rows)
        → BlobStep s (record s { rows = rows })
    completed :
        {s : Blobs} (now : ℕ) (digest : String) (later : List Blob)
        → BlobStep s (complete hash now digest later s).1
    inspected : {s : Blobs} (digest : String) → BlobStep s (inspect hash digest s).1
    released :
        {s : Blobs} (digests referenced : List String)
        → BlobStep s (record s { files = release_files digests referenced s.files })
    chunks_changed :
        {s : Blobs} (chunks : List StoredFile) → BlobStep s (record s { chunks = chunks })

  pub data BlobRun : Blobs → Blobs → Type 0 where
    rest : {s : Blobs} → BlobRun s s
    next : {s t v : Blobs} → BlobStep s t → BlobRun t v → BlobRun s v

  BlobStep-IsGenuine :
      {s t : Blobs} → BlobStep s t → IsGenuine hash s.files → IsGenuine hash t.files
  unfolding complete inspect
  BlobStep-IsGenuine (chunk_put digest payload e) all = all
  BlobStep-IsGenuine (manifest_added digest offset part e) all = all
  BlobStep-IsGenuine {s} (completed now digest later) all =
      subst (IsGenuine hash) (sym (complete_found-files hash now (find_blob digest s.rows) later s))
        all
  BlobStep-IsGenuine {s} (inspected digest) all =
      inspect_found-IsGenuine hash (find_blob digest s.rows) s all
  BlobStep-IsGenuine {s} (released digests referenced) all =
      release_files-IsGenuine hash digests referenced s.files all
  BlobStep-IsGenuine (chunks_changed chunks) all = all

  BlobRun-IsGenuine : {s t : Blobs} → BlobRun s t → IsGenuine hash s.files → IsGenuine hash t.files
  BlobRun-IsGenuine rest all = all
  BlobRun-IsGenuine (next a run) all = BlobRun-IsGenuine run (BlobStep-IsGenuine a all)

  exists_genuine :
      (name : String) (files : List StoredFile)
      → IsGenuine hash files
      → exists_file name files ≡ true
      → (content : Bytes) × (read_bytes name files ≡ some content) × (hash content ≡ name)
  unfolding read_bytes
  exists_genuine name files all e = elim (Option-cases (first (named name) files)) [
    | inl f ↦ absurd (let k : false ≡ true = rw f at e in cc)
    | inr (file, f) ↦
        let same_name = (eq_iff file.name name).0 (first_passes (named name) files f) in
        let genuine = All-first (λ f. (hash f.content == f.name) ≡ true) (named name) files all f in
        (file.content, rw f refl, (eq_iff (hash file.content) file.name).0 genuine ∙ same_name)
  ]

  other_name : (a b : String) → (a == b) ≡ false → (b == a) ≡ false
  other_name a b h = ground (arith, eq_iff a b, eq_iff b a)

  written-exists :
      (name : String) (content : Bytes) (files : List StoredFile)
      → exists_file name (write_whole name content files) ≡ true
  unfolding read_bytes write_whole first put
  written-exists name content [] = ground (arith, eq_refl name)
  written-exists name content (f ∷ fs) = elim (Bool-cases (name == f.name)) [
    | inl e ↦ rw (e, eq_refl name) refl
    | inr e ↦ rw (e, other_name name f.name e) (written-exists name content fs)
  ]

  assembled-exists :
      (blob : Blob) (o : Option Bytes) (s : Blobs)
      → (assembled hash blob o s).0 ≡ true
      → exists_file blob.digest (assembled hash blob o s).1.files ≡ true
  unfolding assembled
  assembled-exists blob none s made = absurd (cc)
  assembled-exists blob (some content) s made = elim (Bool-cases (hash content == blob.digest)) [
    | inl e ↦ rw e (written-exists blob.digest content s.files)
    | inr e ↦ absurd (let k : false ≡ true = rw (e, assembled) at made in cc)
  ]

  assemble-exists :
      (blob : Blob) (s : Blobs)
      → (assemble hash blob s).0 ≡ true
      → exists_file blob.digest (assemble hash blob s).1.files ≡ true
  unfolding assemble
  assemble-exists blob s made = elim (Bool-cases (exists_file blob.digest s.files)) [
    | inl e ↦ rw e e
    | inr e ↦
        rw e (assembled-exists blob (chunk_bytes blob.chunks s.chunks) s (rw (e, assemble) at made))
  ]

  reopened-made : (blob : Blob) (made : Bool) (s : Blobs) → (reopened blob (made, s)).0 ≡ made
  unfolding reopened
  reopened-made blob true s = refl
  reopened-made blob false s = refl

  inspect_found-exists :
      (blob : Blob) (s : Blobs)
      → (inspect_found hash (some blob) s).0 ≡ true
      → exists_file blob.digest (inspect_found hash (some blob) s).1.files ≡ true
  unfolding inspect_found
  inspect_found-exists blob s made = elim (Bool-cases (is_none blob.completed_at)) [
    | inl e ↦ absurd (let k : false ≡ true = rw (e, inspect_found) at made in cc)
    | inr e ↦
        let (there, after) = assemble hash blob s in
        let k : (reopened blob (assemble hash blob s)).0 ≡ true = rw (e, inspect_found) at made in
        rw e (
          subst (λ (fs : List StoredFile). exists_file blob.digest fs ≡ true)
            (sym (reopened-files hash blob (assemble hash blob s).0 (assemble hash blob s).1))
            (assemble-exists blob s
              (sym (reopened-made blob (assemble hash blob s).0 (assemble hash blob s).1) ∙ k)))
  ]

  inspect_found-blob :
      (o : Option Blob) (s : Blobs)
      → (inspect_found hash o s).0 ≡ true
      → (blob : Blob) × (o ≡ some blob)
        × (exists_file blob.digest (inspect_found hash o s).1.files ≡ true)
  unfolding inspect_found
  inspect_found-blob none s made = absurd (cc)
  inspect_found-blob (some blob) s made = (blob, refl, inspect_found-exists blob s made)

  -- Whatever requests came before, and whatever happened to the chunks on the disk in between, from
  -- files that have the digests they are named by: when `inspect` gives a file to its script, the file
  -- is there and has the digest that was asked for.
  pub inspect-IsGenuine :
      {s t : Blobs}
      → BlobRun s t
      → IsGenuine hash s.files
      → (digest : String) → (inspect hash digest t).0 ≡ true
      → (content : Bytes) × (read_bytes digest (inspect hash digest t).1.files ≡ some content)
        × (hash content ≡ digest)
  unfolding inspect find_blob
  inspect-IsGenuine {t = t} run all digest made =
      let files = (inspect_found hash (find_blob digest t.rows) t).1.files in
      let (blob, f, there) = inspect_found-blob (find_blob digest t.rows) t made in
      let same_digest =
        (eq_iff blob.digest digest).0 (first_passes (λ b. b.digest == digest) t.rows f) in
      exists_genuine digest files
        (inspect_found-IsGenuine hash (find_blob digest t.rows) t (BlobRun-IsGenuine run all))
        (subst (λ d. exists_file d files ≡ true) same_digest there)
