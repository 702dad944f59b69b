-- ===== src/Hook/Rows.antt =====
-- `find_transcript` and `save_transcript` of backend/services/ingest.py and backend/repositories/raw.py: the row
-- of a session that is saved is the one that is found afterwards.

use knowledgebase_storage.Common.{
  ◌≡◌, refl, inl, inr, true, false, none, some, List, [], ◌∷◌, arith, eqb, Bool-cases, All,
}
use knowledgebase_storage.Common.Table.{first, put}
use knowledgebase_storage.Common.Table.Laws.{All-put, All-first}
use knowledgebase_storage.Models.{SessionKey, key_eq}
use knowledgebase_storage.Uploads.{RawTranscript, find_transcript, save_transcript}

-- Rows have different identifiers.
abbrev pub DistinctIds : List RawTranscript → Type 0
DistinctIds [] = Unit
DistinctIds (t ∷ ts) = All (λ u. eqb t.id u.id ≡ false) ts × DistinctIds ts

pub save-DistinctIds :
    (t : RawTranscript) (ts : List RawTranscript)
    → DistinctIds ts
    → DistinctIds (save_transcript t ts)
unfolding save_transcript put
save-DistinctIds t [] d = (tt, tt)
save-DistinctIds t (u ∷ us) d = elim (Bool-cases (eqb t.id u.id)) [
  | inl e ↦ rw e (moved u us e d.0, d.1)
  | inr e ↦ rw e (
    All-put (λ v. eqb u.id v.id ≡ false) (λ (a b : RawTranscript). eqb a.id b.id) t us
        (ground (arith, e)) d.0,
    save-DistinctIds t us d.1,
  )
]
  where
    moved :
        (u : RawTranscript) (us : List RawTranscript)
        → eqb t.id u.id ≡ true
        → All (λ v. eqb u.id v.id ≡ false) us
        → All (λ v. eqb t.id v.id ≡ false) us
    moved u [] e all = tt
    moved u (v ∷ vs) e all = (ground (arith, e, all.0), moved u vs e all.1)

-- the row that is saved for a session is the one that is found, whether the session had a row or not
pub find-save_new :
    (key : SessionKey) (t : RawTranscript) (ts : List RawTranscript)
    → key_eq t.key key ≡ true
    → find_transcript key ts ≡ none
    → find_transcript key (save_transcript t ts) ≡ some t
unfolding find_transcript save_transcript first put
find-save_new key t [] k h = rw k refl
find-save_new key t (u ∷ us) k h = elim (Bool-cases (key_eq u.key key)) [
  | inl e ↦ absurd (let n : some u ≡ none = rw (e, first) at h in cc)
  | inr e ↦ elim (Bool-cases (eqb t.id u.id)) [
    | inl i ↦ rw (i, k) refl
    | inr i ↦ rw (i, e) (find-save_new key t us k (rw (e, first) at h))
  ]
]

pub find-save_old :
    (key : SessionKey) (t u : RawTranscript) (ts : List RawTranscript)
    → key_eq t.key key ≡ true
    → eqb t.id u.id ≡ true
    → DistinctIds ts
    → find_transcript key ts ≡ some u
    → find_transcript key (save_transcript t ts) ≡ some t
unfolding find_transcript save_transcript first put
find-save_old key t u [] k i d h = absurd (cc)
find-save_old key t u (v ∷ vs) k i d h = elim (Bool-cases (key_eq v.key key)) [
  | inl e ↦
      let same : some v ≡ some u = rw (e, first) at h in
      let j : eqb t.id v.id ≡ true = ground (arith, same, i) in rw (j, k) refl
  | inr e ↦
      let later : first (λ w. key_eq w.key key) vs ≡ some u = rw (e, first) at h in
      let other = All-first (λ w. eqb v.id w.id ≡ false) (λ w. key_eq w.key key) vs d.0 later in
      let j : eqb t.id v.id ≡ false = ground (arith, other, i) in
      rw (j, e) (find-save_old key t u vs k i d.1 later)
]
