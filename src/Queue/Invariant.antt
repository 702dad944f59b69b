-- ===== src/Queue/Invariant.antt =====
-- Each operation on the job table keeps a closed predicate of the rows.
use knowledgebase_storage.Common.{
  ℕ, String, ◌≡◌, refl, inl, inr, Bool, true, false, Option, none, some, List, [], ◌∷◌, arith,
  Bool-cases, holds_text, ◌<>◌, All,
}
use knowledgebase_storage.Common.Result.{ok}
use knowledgebase_storage.Common.Table.Laws.{All-delete_where}
use knowledgebase_storage.Names.{CharTables}
use knowledgebase_storage.Models.{
  Job, JobBase, JobKind, JobStatus, SessionKey, NoteVerdict, is_claimed, purge, hide, new_job,
  background_session,
}
use knowledgebase_storage.Models.Json.{Json, Message}
use knowledgebase_storage.Queue.{find_by_session, bulk_update}
use knowledgebase_storage.Queue.Background.{
  ensure_background, ensure_memory_merge, relink, relink_one, rearm, background_job, or_new,
  is_idle, background_key, is_applied, file_merge, arm_merge, merge_documents,
}
use knowledgebase_storage.Queue.Service.{enqueue_row}
use knowledgebase_storage.Queue.Workers.{claim_held}
use knowledgebase_storage.Queue.Decisions.{save_forgotten, drop_session}
use knowledgebase_storage.Queue.Tables.{
  Keeps, All-save, All-bulk_update, All-find_by_session, All-retrieve, claim_held_ok,
}
use knowledgebase_storage.Queue.Closed.{SameClaim, IsClosed}

module _ (u : CharTables) (digest_of : Option (List Message) → String) (shown : Json → String)
    (Issued : ℕ → Type 0) (P : Job → Type 0) (c : IsClosed u digest_of shown Issued P) where
  pub kept : Keeps P
  kept = record {
    touch = λ now j p.
        c.same j (record j { updated_at = now })
          (record {
            id = refl;
            status = refl;
            claimed_at = refl;
            claim_token = refl;
            completed_at = refl;
            checkpoint = refl;
          })
          p;
  }

  pub All-enqueue_row :
      (id now : ℕ) (b : JobBase) (held : Bool) (o : Option Job) (jobs : List Job)
      → ((j : Job) → o ≡ some j → P j)
      → All P jobs
      → All P (enqueue_row u digest_of shown id now b held o jobs).2
  unfolding enqueue_row
  All-enqueue_row id now b true (some j) jobs old all = all
  All-enqueue_row id now b true none jobs old all =
      All-save P kept now _ jobs (c.made_settled id now b) all
  All-enqueue_row id now b false none jobs old all =
      All-save P kept now _ jobs (c.made id now b) all
  All-enqueue_row id now b false (some j) jobs old all =
      elim (Bool-cases (holds_text j.transcript_digest (digest_of b.transcript))) [
        | inl e ↦ rw e all
        | inr e ↦ rw e (All-save P kept now _ jobs (c.continued now b j (old j refl)) all)
      ]

  -- the row that a worker's request holds
  pub held_row :
      (id token : ℕ) (jobs : List Job) (j : Job)
      → claim_held id token jobs ≡ ok j
      → All P jobs
      → P j × (is_claimed j.status ≡ true)
  held_row id token jobs j h all =
      let (r, s, t) = claim_held_ok id token jobs j h in (All-retrieve P kept id jobs all r, s)

  -- the row found, or else a fresh one
  pub All-or_new :
      (o : Option Job) (fresh : Job) → ((j : Job) → o ≡ some j → P j) → P fresh → P (or_new o fresh)
  unfolding or_new
  All-or_new none fresh old p = p
  All-or_new (some j) fresh old p = old j refl

  idle-unclaimed :
      (o : Option Job) (fresh : Job)
      → is_idle o ≡ true
      → is_claimed fresh.status ≡ false
      → is_claimed (or_new o fresh).status ≡ false
  unfolding or_new is_idle
  idle-unclaimed none fresh h f = f
  idle-unclaimed (some j) fresh h f = ground arith

  pub P-rearm :
      (now : ℕ) (k : JobKind) (p : String) (n : Option String) (j : Job)
      → is_claimed j.status ≡ false
      → P j
      → P (rearm now k p n j)
  unfolding rearm
  P-rearm now k p n j free q =
      c.same (record j { status = JobStatus.pending }) _ (ground arith) (c.rearmed j free q)

  pub All-ensure_background :
      (id now : ℕ) (k : JobKind) (s p : String) (n : Option String) (jobs : List Job)
      → All P jobs
      → All P (ensure_background id now k s p n jobs).1
  unfolding ensure_background background_job new_job
  All-ensure_background id now k s p n jobs all =
      let existing = find_by_session (background_key s) jobs in
      let fresh = background_job id s p now in
      let row =
        All-or_new existing fresh (λ j e. All-find_by_session P kept (background_key s) jobs all e)
          (c.made_background id s p now) in
      elim (Bool-cases (is_idle existing)) [
        | inl e ↦ rw e (
            All-save P kept now (rearm now k p n (or_new existing fresh)) jobs
              (P-rearm now k p n (or_new existing fresh) (idle-unclaimed existing fresh e refl) row)
              all)
        | inr e ↦ rw e all
      ]

  pub P-file_merge :
      (now : ℕ) (p path : String) (ds : List Message) (j : Job)
      → P j
      → P (file_merge now p path ds j)
  unfolding file_merge
  P-file_merge now p path ds j q = c.same j (file_merge now p path ds j) (ground arith) q

  pub P-arm_merge : (j : Job) → is_claimed j.status ≡ false → P j → P (arm_merge j)
  unfolding arm_merge
  P-arm_merge j free q =
      c.same (record j { status = JobStatus.pending }) (arm_merge j) (ground arith)
        (c.rearmed j free q)

  pub All-ensure_memory_merge :
      (id now : ℕ) (p n path : String) (d : Message) (jobs : List Job)
      → All P jobs
      → All P (ensure_memory_merge id now p n path d jobs).1
  unfolding ensure_memory_merge background_job new_job
  All-ensure_memory_merge id now p n path d jobs all =
      let s = background_session JobKind.memory_merge (p <> ("/" <> n)) in
      let existing = find_by_session (background_key s) jobs in
      let fresh = background_job id s p now in
      let held = or_new existing fresh in
      let job =
        file_merge now p path (merge_documents (is_applied existing) d held.transcript) held in
      let filed : P job = P-file_merge now p path _ held (
        All-or_new existing fresh (λ j e. All-find_by_session P kept (background_key s) jobs all e)
          (c.made_background id s p now)) in
      elim (Bool-cases (is_idle existing)) [
        | inl e ↦ rw e (
            All-save P kept now (arm_merge job) jobs
              (P-arm_merge job (idle-unclaimed existing fresh e refl) filed) all)
        | inr e ↦ rw e (All-save P kept now job jobs filed all)
      ]

  -- a bulk update that leaves claims alone
  pub All-relabel :
      (now : ℕ) (test : Job → Bool) (change : Job → Job) (jobs : List Job)
      → ((j : Job) → SameClaim j (change j))
      → All P jobs
      → All P (bulk_update now test change jobs)
  All-relabel now test change jobs same all =
      All-bulk_update P kept now test change jobs (λ j t p. c.same j (change j) (same j) p) all

  pub All-relink :
      (now : ℕ) (moves : List (String × String)) (jobs : List Job)
      → All P jobs
      → All P (relink now moves jobs)
  unfolding relink relink_one
  All-relink now [] jobs all = all
  All-relink now ((old, new) ∷ moves) jobs all =
      All-relink now moves (relink_one now old new jobs) (
        All-relabel now (λ j. holds_text j.note_path old) (λ j. record j { note_path = some new })
          jobs
          (λ j. record {
            id = refl;
            status = refl;
            claimed_at = refl;
            claim_token = refl;
            completed_at = refl;
            checkpoint = refl;
          })
          all)

  pub All-forgotten :
      (now : ℕ) (key : SessionKey) (v : NoteVerdict) (o : Option Job) (jobs : List Job)
      → ((j : Job) → o ≡ some j → P j)
      → All P jobs
      → All P (drop_session key v (save_forgotten now o jobs))
  unfolding save_forgotten drop_session
  All-forgotten now key purge none jobs old all = All-delete_where P _ jobs all
  All-forgotten now key purge (some j) jobs old all =
      All-delete_where P _ _ (All-save P kept now _ jobs (c.hid now j (old j refl)) all)
  All-forgotten now key hide none jobs old all = all
  All-forgotten now key hide (some j) jobs old all =
      All-save P kept now _ jobs (c.hid now j (old j refl)) all
