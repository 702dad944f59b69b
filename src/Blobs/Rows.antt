-- ===== src/Blobs/Rows.antt =====
-- The table of blobs: a row that is saved and then found.

use knowledgebase_storage.Common.{
  String, ◌≡◌, refl, inl, inr, false, some, List, [], ◌∷◌, arith, ◌==◌, eq_iff, Bool-cases,
}
use knowledgebase_storage.Common.Table.{first, put}
use knowledgebase_storage.Common.Table.Laws.{first_passes}
use knowledgebase_storage.Blobs.{Blob, find_blob, save_blob}

-- the row that was saved is found
pub find_blob-save_blob :
    (digest : String) (b : Blob) (rows : List Blob)
    → b.digest ≡ digest
    → find_blob digest (save_blob b rows) ≡ some b
unfolding find_blob save_blob first put
find_blob-save_blob digest b [] e = rw ((eq_iff b.digest digest).1 e) refl
find_blob-save_blob digest b (r ∷ rs) e = elim (Bool-cases (b.digest == r.digest)) [
  | inl f ↦ rw (f, (eq_iff b.digest digest).1 e) refl
  | inr f ↦
      let other : (r.digest == digest) ≡ false =
        ground (arith, eq_iff b.digest r.digest, eq_iff r.digest digest, e, f) in
      rw (f, other) (find_blob-save_blob digest b rs e)
]

pub found_digest :
    (digest : String) (rows : List Blob) {b : Blob}
    → find_blob digest rows ≡ some b
    → b.digest ≡ digest
unfolding find_blob
found_digest digest rows {b = b} f =
    (eq_iff b.digest digest).0 (first_passes (λ b. b.digest == digest) rows f)
