-- ===== src/Blobs/Complete.antt =====
-- What `complete` of backend/services/blobs.py has checked when it answers.

use knowledgebase_storage.Common.{
  ℕ, String, ◌≡◌, refl, ap, subst, ◌⊎◌, inl, inr, true, not, ◌||◌, Option, none, some, List, [],
  ◌∷◌, arith, ◌==◌, eq_iff, eqb, Bool-cases, is_some, length,
}
use knowledgebase_storage.Common.Result.{ok, raised, blob_incomplete}
use knowledgebase_storage.Blobs.{
  Bytes, Blob, Blobs, find_blob, save_blob, same_chunks, complete_locked, missing,
}
use knowledgebase_storage.Blobs.Service.{digest_of, complete, complete_found, complete_checked}
use knowledgebase_storage.Blobs.Rows.{find_blob-save_blob, found_digest}

same_chunks-eq : (xs ys : List String) → same_chunks xs ys ≡ true → xs ≡ ys
unfolding same_chunks
same_chunks-eq [] [] h = refl
same_chunks-eq [] (y ∷ ys) h = absurd (cc)
same_chunks-eq (x ∷ xs) [] h = absurd (cc)
same_chunks-eq (x ∷ xs) (y ∷ ys) h =
    let e = same_chunks-eq xs ys (ground (arith, h)) in
    let f = (eq_iff x y).0 (ground (arith, h)) in rw (e, f) refl

-- What `complete` answers is the row that it leaves, completed, with the chunks that were read.
Locked : String → List String → Blob → Blobs → Type 0
Locked digest cs b s =
    (b.chunks ≡ cs) × (is_some b.completed_at ≡ true) × (find_blob digest s.rows ≡ some b)

complete_locked-Locked :
    (now : ℕ) (digest : String) (cs : List String) (o : Option Blob) (s : Blobs) {b : Blob}
    → find_blob digest s.rows ≡ o
    → (complete_locked now cs o s).0 ≡ ok b
    → Locked digest cs b (complete_locked now cs o s).1
unfolding complete_locked Locked
complete_locked-Locked now digest cs none s f done = absurd (cc)
complete_locked-Locked now digest cs (some locked) s {b = b} f done =
    elim (Bool-cases (same_chunks locked.chunks cs)) [
      | inr e ↦
          absurd (let k : raised blob_incomplete ≡ ok b = rw (e, complete_locked) at done in cc)
      | inl e ↦ elim (Bool-cases (is_some locked.completed_at)) [
        | inl c ↦
            let k : ok locked ≡ ok b = rw (e, c, complete_locked) at done in
            let same_row : locked ≡ b = ground (arith, k) in
            rw (e, c)
              (subst (λ r. Locked digest cs r s) same_row (same_chunks-eq locked.chunks cs e, c, f))
        | inr c ↦
            let stamped : Blob = record locked { completed_at = some now } in
            let k : ok stamped ≡ ok b = rw (e, c, complete_locked) at done in
            let same_row : stamped ≡ b = ground (arith, k) in
            let after : Blobs = record s { rows = save_blob stamped s.rows } in
            rw (e, c)
              (subst (λ r. Locked digest cs r after) same_row
                (
                  same_chunks-eq locked.chunks cs e,
                  refl,
                  find_blob-save_blob digest stamped s.rows (found_digest digest s.rows f),
                ))
      ]
    ]

module _ (hash : Bytes → String) where
  complete_checked-Locked :
      (now : ℕ) (blob : Blob) (o : Option (ℕ × String)) (later : List Blob) (s : Blobs) {b : Blob}
      → (complete_checked hash now blob o later s).0 ≡ ok b
      → (o ≡ some (blob.byte_size, blob.digest))
        × Locked blob.digest blob.chunks b (complete_checked hash now blob o later s).1
  unfolding complete_checked
  complete_checked-Locked now blob none later s done = absurd (cc)
  complete_checked-Locked now blob (some (total, whole)) later s {b = b} done =
      elim (Bool-cases (not (eqb total blob.byte_size) || not (whole == blob.digest))) [
        | inl e ↦
            absurd (let k : raised blob_incomplete ≡ ok b = rw (e, complete_checked) at done in cc)
        | inr e ↦
            let size : total ≡ blob.byte_size = ground (arith, e) in
            let digest : whole ≡ blob.digest = (eq_iff whole blob.digest).0 (ground (arith, e)) in
            let at_lock : Blobs = record s { rows = later } in
            rw e (
              rw (size, digest) refl,
              complete_locked-Locked now blob.digest blob.chunks (find_blob blob.digest later)
                  at_lock refl (rw (e, complete_checked) at done),
            )
      ]

  complete_found-Locked :
      (now : ℕ) (o : Option Blob) (later : List Blob) (s : Blobs) {b : Blob}
      → (complete_found hash now o later s).0 ≡ ok b
      → ((o ≡ some b)
          × (is_some b.completed_at ≡ true)
          × ((complete_found hash now o later s).1 ≡ s))
        ⊎ ((r : Blob) × (o ≡ some r)
            × (digest_of hash r.chunks s.chunks ≡ some (r.byte_size, r.digest))
            × Locked r.digest r.chunks b (complete_found hash now o later s).1)
  unfolding complete_found
  complete_found-Locked now none later s done = absurd (cc)
  complete_found-Locked now (some r) later s {b = b} done =
      elim (Bool-cases (is_some r.completed_at)) [
        | inl c ↦
            let k : ok r ≡ ok b = rw (c, complete_found) at done in
            let same_row : r ≡ b = ground (arith, k) in
            inl
              (rw c (ap some same_row, subst (λ x. is_some x.completed_at ≡ true) same_row c, refl))
        | inr c ↦ elim (Bool-cases (eqb (length (missing r.chunks s.chunks)) 0)) [
          | inl e ↦
              let checked =
                complete_checked-Locked now r (digest_of hash r.chunks s.chunks) later s
                  (rw (c, e, complete_found) at done) in
              inr (rw (c, e) (r, refl, checked.0, checked.1))
          | inr e ↦
              absurd
                (let k : raised blob_incomplete ≡ ok b = rw (c, e, complete_found) at done in cc)
        ]
      ]

  -- When `complete` answers with a row, either the row was completed before and nothing changed, or it
  -- is completed now: the chunks that it lists were on the disk, with the byte size that the row first
  -- read told and with the digest that was asked for, and they are the chunks of the row that is left,
  -- whatever other requests did to the rows while the chunks were read.
  pub complete_lem :
      (now : ℕ) (digest : String) (later : List Blob) (s : Blobs) {b : Blob}
      → (complete hash now digest later s).0 ≡ ok b
      → ((find_blob digest s.rows ≡ some b)
          × (is_some b.completed_at ≡ true)
          × ((complete hash now digest later s).1 ≡ s))
        ⊎ ((first_read : Blob) × (find_blob digest s.rows ≡ some first_read)
            × (digest_of hash b.chunks s.chunks ≡ some (first_read.byte_size, digest))
            × (is_some b.completed_at ≡ true)
            × (find_blob digest (complete hash now digest later s).1.rows ≡ some b))
  unfolding complete complete_found Locked
  complete_lem now digest later s {b = b} done =
      elim (complete_found-Locked now (find_blob digest s.rows) later s done) [
        | inl before ↦ inl before
        | inr (r, f, read, lock) ↦
            let named = found_digest digest s.rows f in
            let (chunks, stamped, left) = lock in
            inr (
              r,
              f,
              rw chunks (
                  subst (λ d. digest_of hash r.chunks s.chunks ≡ some (r.byte_size, d)) named read),
              stamped,
              subst
                  (λ d.
                    find_blob d (complete_found hash now (find_blob digest s.rows) later s).1.rows
                    ≡ some b)
                  named left,
            )
      ]
