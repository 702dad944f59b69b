-- ===== src/Blobs/Manifest.antt =====
-- The manifest of an upload: `add_manifest` of backend/services/blobs.py, one part after the other.
use mathlib.Core.List
use knowledgebase_storage.Common.{
  ℕ, ◌+◌, String, ◌≡◌, refl, sym, ◌∙◌, subst, true, Option, none, some, List, [], ◌∷◌, ◌++◌, arith,
  eqb, if◌then◌else◌, length, length-append,
}
use knowledgebase_storage.Common.Result.{Result, ok, ◌>>=◌}
use knowledgebase_storage.Blobs.{
  Blob, BlobManifestPart, find_blob, save_blob, claimed_blob, extend_manifest, add_manifest,
}
use knowledgebase_storage.Blobs.Rows.{find_blob-save_blob, found_digest}

-- A client sends the parts of a manifest one after the other, each at the number of chunks sent before.
abbrev pub send_parts : String → ℕ → List BlobManifestPart → List Blob → Result (List Blob)
send_parts digest offset [] rows = ok rows
send_parts digest offset (p ∷ ps) rows =
    add_manifest digest offset p rows >>= λ r. send_parts digest (offset + length p.chunks) ps r.1

abbrev pub all_chunks : List BlobManifestPart → List String
all_chunks [] = []
all_chunks (p ∷ ps) = p.chunks ++ all_chunks ps

held_chunks : (acc : List String) → (if eqb (length acc) 0 then [] else acc) ≡ acc
held_chunks [] = refl
held_chunks (x ∷ xs) = ground arith

-- the claimed row with the part's size, and its chunks after those that came before
abbrev extended : BlobManifestPart → List String → Blob → Blob
extended part acc blob = record blob { byte_size = part.byte_size; chunks = acc ++ part.chunks }

add_manifest-extends :
    (digest : String) (part : BlobManifestPart) (acc : List String) (rows : List Blob)
    → let blob = claimed_blob digest (find_blob digest rows) in
      blob.completed_at ≡ none
      → (if eqb (length acc) 0 then [] else blob.chunks) ≡ acc
      → add_manifest digest (length acc) part rows
        ≡ ok (extended part acc blob, save_blob (extended part acc blob) rows)
unfolding add_manifest extend_manifest
add_manifest-extends digest part acc rows c e = rw (c, e) (rw (same_length (length acc)) refl)
  where
    same_length : (n : ℕ) → eqb n n ≡ true
    same_length n = ground arith

-- a row that can take a part at `offset`: its chunks end there, or the part begins the manifest anew
send_parts-from :
    (digest : String) (ps : List BlobManifestPart) (acc : List String) (blob : Blob)
    (rows : List Blob)
    → find_blob digest rows ≡ some blob
    → blob.completed_at ≡ none
    → blob.chunks ≡ acc
    → (rows' : List Blob) × (blob' : Blob) × (send_parts digest (length acc) ps rows ≡ ok rows')
      × (find_blob digest rows' ≡ some blob')
      × (blob'.chunks ≡ acc ++ all_chunks ps)
unfolding claimed_blob
send_parts-from digest [] acc blob rows f c e = (rows, blob, refl, f, e ∙ sym (List.append-nil acc))
send_parts-from digest (p ∷ ps) acc blob rows f c e =
    let added = add_manifest-extends digest p acc rows (rw f c) (rw (f, e) (held_chunks acc)) in
    let next = extended p acc blob in
    let named = found_digest digest rows f in
    let (rows', blob', sent, found, chunks) =
      send_parts-from digest ps (acc ++ p.chunks) next (save_blob next rows)
        (find_blob-save_blob digest next rows named) c refl in
    (
      rows',
      blob',
      rw added (rw f (rw (sym (length-append acc p.chunks)) sent)),
      found,
      chunks ∙ List.append_assoc acc p.chunks (all_chunks ps),
    )

-- The parts of a manifest that is not completed, sent one after the other from the beginning, each at
-- the number of chunks sent before it, are all accepted, whatever chunks the row held before. The row
-- then holds the chunks of all the parts in order.
pub send_parts_lem :
    (digest : String) (p : BlobManifestPart) (ps : List BlobManifestPart) (rows : List Blob)
    → (claimed_blob digest (find_blob digest rows)).completed_at ≡ none
    → (rows' : List Blob) × (blob : Blob) × (send_parts digest 0 (p ∷ ps) rows ≡ ok rows')
      × (find_blob digest rows' ≡ some blob)
      × (blob.chunks ≡ all_chunks (p ∷ ps))
unfolding claimed_blob
send_parts_lem digest p ps rows c =
    let claimed = claimed_blob digest (find_blob digest rows) in
    let next = extended p [] claimed in
    let added = add_manifest-extends digest p [] rows c refl in
    let (rows', blob', sent, found, chunks) =
      send_parts-from digest ps p.chunks next (save_blob next rows)
        (find_blob-save_blob digest next rows (claimed_digest (find_blob digest rows) refl)) c
        refl in
    (
      rows',
      blob',
      rw added (
          subst (λ n. send_parts digest n ps (save_blob next rows) ≡ ok rows')
            (from_zero (length p.chunks)) sent),
      found,
      chunks,
    )
  where
    from_zero : (n : ℕ) → n ≡ 0 + n
    from_zero n = omega arith

    claimed_digest :
        (o : Option Blob) → find_blob digest rows ≡ o → (claimed_blob digest o).digest ≡ digest
    claimed_digest none f = refl
    claimed_digest (some b) f = found_digest digest rows f
