-- ===== src/Uploads/Parts.antt =====
-- An upload in parts: `start_upload`, `add_part` and `finish_upload` of backend/services/ingest.py.
use mathlib.Core.List
use mathlib.Core.Path.{subst₂}
use knowledgebase_storage.Common.{
  ℕ, suc, ◌+◌, String, ◌≡◌, refl, sym, ap, subst, Bool, true, false, not, ◌&&◌, some, List, [], ◌∷◌,
  ◌++◌, arith, ◌==◌, eq_iff, eq_refl, eqb, length, length-append,
}
use knowledgebase_storage.Common.Result.{Result, ok, ◌>>=◌, Returns}
use knowledgebase_storage.Common.Table.Laws.{first-put, first_passes}
use knowledgebase_storage.Blobs.{Bytes, StoredFile, read_bytes, write_whole, named, contents}
use knowledgebase_storage.Uploads.{
  Upload, UploadKind, Paths, Storage, find_upload, save_upload, append_bytes, truncate,
  start_upload, add_part, found_upload,
}
use knowledgebase_storage.Uploads.Service.{finish_upload, digest_file}

pub read_bytes-write_whole :
    (name : String) (content : Bytes) (files : List StoredFile)
    → read_bytes name (write_whole name content files) ≡ some content
unfolding read_bytes write_whole
read_bytes-write_whole name content files = ap contents (
    first-put (λ a b. a.name == b.name) (named name) (record { name = name; content = content })
      files (eq_refl name) (λ y h. ground (arith, h, eq_iff name y.name, eq_iff y.name name)))

find_upload-save_upload :
    (w : Upload) (uploads : List Upload) → find_upload w.id (save_upload w uploads) ≡ some w
unfolding find_upload save_upload
find_upload-save_upload w uploads =
    first-put (λ a b. eqb a.id b.id) (λ v. eqb v.id w.id) w uploads (ground arith)
      (λ y h. ground (arith, h))

abbrev pub all_bytes : List Bytes → Bytes
all_bytes [] = []
all_bytes (p ∷ ps) = p ++ all_bytes ps

module _ (paths : Paths) (id : ℕ) where
  -- The parts one after the other, each at the number of bytes sent before it.
  abbrev pub send_payloads : ℕ → List Bytes → Storage → Result Storage
  send_payloads offset [] s = ok s
  send_payloads offset (p ∷ ps) s =
      add_part paths id offset p s >>= λ r. send_payloads (offset + length p) ps r.1

  -- The upload has its row, and its file holds `content`.
  pub record Holds (content : Bytes) (count : ℕ) (s : Storage) (w : Upload) : Type 0 where
    pub row : find_upload id s.uploads ≡ some w
    pub file : read_bytes (paths.upload_path id) s.files ≡ some content
    pub sized : w.byte_size ≡ length content
    pub counted : w.part_count ≡ count

  found_id : (uploads : List Upload) {w : Upload} → find_upload id uploads ≡ some w → w.id ≡ id
  unfolding find_upload
  found_id uploads {w = w} f =
      let h = first_passes (λ v. eqb v.id id) uploads f in ground (arith, h)

  -- one part at the end of the file is appended
  add_part-Holds :
      (p content : Bytes) (count : ℕ) (s : Storage) (w : Upload)
      → Holds content count s w
      → (r : Upload × Storage) × (add_part paths id (length content) p s ≡ ok r)
        × Holds (content ++ p) (suc count) r.1 r.0
  unfolding add_part append_bytes found_upload
  add_part-Holds p content count s w h =
      let path = paths.upload_path id in
      let saved : Upload = record w {
        byte_size = length content + length p;
        part_count = suc w.part_count;
      } in
      let after : Storage = record s {
        uploads = save_upload saved s.uploads;
        files = write_whole path (content ++ p) s.files;
      } in
      (
        (saved, after),
        rw (h.row, h.file, id_itself (length content)) refl,
        record {
          row =
              subst (λ (n : ℕ). find_upload n (save_upload saved s.uploads) ≡ some saved)
                (found_id s.uploads h.row) (find_upload-save_upload saved s.uploads);
          file = read_bytes-write_whole path (content ++ p) s.files;
          sized = sym (length-append content p);
          counted = ap suc h.counted;
        },
      )
    where
      id_itself : (n : ℕ) → eqb n n ≡ true
      id_itself n = ground arith

  send_payloads-Holds :
      (ps : List Bytes) (content : Bytes) (count : ℕ) (s : Storage) (w : Upload)
      → Holds content count s w
      → (t : Storage) × (v : Upload) × (send_payloads (length content) ps s ≡ ok t)
        × Holds (content ++ all_bytes ps) (count + length ps) t v
  send_payloads-Holds [] content count s w h =
      (s, w, refl, subst₂ (λ c n. Holds c n s w) (sym (List.append-nil content)) (omega arith) h)
  send_payloads-Holds (p ∷ ps) content count s w h =
      let ((v, t), added, held) = add_part-Holds p content count s w h in
      let (t', v', sent, last) = send_payloads-Holds ps (content ++ p) (suc count) t v held in
      (
        t',
        v',
        rw added (rw (sym (length-append content p)) sent),
        subst₂ (λ c n. Holds c n t' v') (List.append_assoc content p (all_bytes ps)) (omega arith)
            last,
      )

  finish_upload-Holds :
      (hash : Bytes → String) (content : Bytes) (count now : ℕ) (s : Storage) (w : Upload)
      → Holds content count s w
      → Returns
          (λ r. r.0.digest ≡ some (hash content))
          (finish_upload hash paths id now (hash content) s)
  unfolding finish_upload found_upload digest_file
  finish_upload-Holds hash content count now s w h =
      rw (h.row, h.file, eq_refl (hash content)) (rw (never (not (hash content == ""))) refl)
    where
      never : (b : Bool) → (b && false) ≡ false
      never b = ground arith

  started-Holds :
      (kind : UploadKind) (s : Storage)
      → Holds [] 0 (start_upload paths id kind s).1 (start_upload paths id kind s).0
  unfolding start_upload truncate
  started-Holds kind s =
      let (made, begun) = start_upload paths id kind s in
      record {
        row = find_upload-save_upload made s.uploads;
        file = read_bytes-write_whole (paths.upload_path id) [] s.files;
        sized = refl;
        counted = refl;
      }

  -- An upload that is started and sent in parts, each at the number of bytes sent before it, is accepted
  -- whatever was stored before: its file holds the parts in order, its row says how many bytes and parts
  -- that are, and it is finished by the digest of the whole.
  pub upload_roundtrip :
      (hash : Bytes → String) (kind : UploadKind) (ps : List Bytes) (s : Storage) (now : ℕ)
      → (t : Storage) × (w : Upload) × (send_payloads 0 ps (start_upload paths id kind s).1 ≡ ok t)
        × Holds (all_bytes ps) (length ps) t w
        × Returns
            (λ r. r.0.digest ≡ some (hash (all_bytes ps)))
            (finish_upload hash paths id now (hash (all_bytes ps)) t)
  upload_roundtrip hash kind ps s now =
      let begun = (start_upload paths id kind s).1 in
      let (t, w, sent, held) =
        send_payloads-Holds ps [] 0 begun (start_upload paths id kind s).0 (started-Holds kind s) in
      let whole : Holds (all_bytes ps) (length ps) t w =
        subst (λ n. Holds (all_bytes ps) n t w) (omega arith) held in
      (t, w, sent, whole, finish_upload-Holds hash (all_bytes ps) (length ps) now t w whole)
