-- ===== src/Queue/Induction.antt =====
-- The invariant rule: a closed predicate holds of every row of every queue that the API reaches.
use knowledgebase_storage.Common.{◌==◌, ℕ, String, ◌≡◌, true, Option, some, List, arith, All}
use knowledgebase_storage.Common.Table.Laws.{All-delete_where}
use knowledgebase_storage.Names.{CharTables}
use knowledgebase_storage.Models.{Job, NoteDecision}
use knowledgebase_storage.Models.Json.{Json, Message}
use knowledgebase_storage.Queue.{
  reclaim_stale, purge_transcripts, settle_decided, reopen, requeue, is_stale, is_expired,
}
use knowledgebase_storage.Queue.{is_decided, settle_row}
use knowledgebase_storage.Queue.Background.{drop_background, rename_project, delete_project, drop}
use knowledgebase_storage.Queue.Unsummarized.{settle_without_note, is_noteless, settle_noteless}
use knowledgebase_storage.Queue.Service.{Queue, enqueue}
use knowledgebase_storage.Queue.Workers.{claim, heartbeat, report, release, written, settle, fail}
use knowledgebase_storage.Queue.Decisions.{forget_session, allow}
use knowledgebase_storage.Queue.Tables.{
  Keeps, All-save, All-bulk_update, All-find_by_session, All-retrieve, All-claim_next,
}
use knowledgebase_storage.Queue.Steps.{
  Step, Reach, here, next, enqueued, claimed, beaten, reported, released, failed, completed,
  settled, retried, reclaimed, purged, hidden, trivial, refined, rebuilt, ensured, merged, renamed,
  relinked, deleted, looked, put_off, parted, carried, fingerprinted, restarted, pathed, postponed,
  configured, dropped_kind, dropped, forgotten, allowed,
}
use knowledgebase_storage.Queue.Merges.{drop_pairs, is_open_pair}
use knowledgebase_storage.Queue.Carried.{All-carry_memory_merges}
use knowledgebase_storage.Queue.Closed.{IsClosed}
use knowledgebase_storage.Queue.Restarted.{All-rebuild}
use knowledgebase_storage.Queue.Invariant.{
  kept, All-enqueue_row, held_row, All-ensure_background, All-ensure_memory_merge, All-relabel,
  All-relink, All-forgotten,
}

module _ (u : CharTables) (digest_of : Option (List Message) → String) (shown : Json → String)
    (Issued : ℕ → Type 0) (P : Job → Type 0) (c : IsClosed u digest_of shown Issued P) where
  abbrev All_kept : Keeps P
  All_kept = kept u digest_of shown Issued P c

  P-settle_row :
      (ds : List NoteDecision) (now : ℕ) (j : Job)
      → is_decided ds j ≡ true
      → P j
      → P (settle_row now j)
  unfolding is_decided settle_row
  P-settle_row ds now j t p =
      c.same _ (settle_row now j) (ground arith) (c.hidden now j p (ground arith))

  P-settle_noteless :
      (job : Job) (seen now : ℕ) (j : Job)
      → is_noteless job seen j ≡ true
      → P j
      → P (settle_noteless now j)
  unfolding is_noteless settle_noteless
  P-settle_noteless job seen now j t p =
      c.same _ (settle_noteless now j) (ground arith) (c.trivial now j p (ground arith))

  pub Step-All : {q r : Queue} → Step u digest_of shown Issued q r → All P q.jobs → All P r.jobs
  unfolding enqueue claim reclaim_stale purge_transcripts settle_decided settle_without_note
      rename_project drop drop_pairs forget_session allow delete_project drop_background
  Step-All (enqueued q id now payload) all =
      All-enqueue_row u digest_of shown Issued P c id now _ _ _ q.jobs
        (λ j e. All-find_by_session P All_kept _ q.jobs all e) all
  Step-All (claimed q locked now worker provider min_age token issued) all =
      All-claim_next P All_kept q.providers q.decisions locked worker now _ _ _ token q.jobs
        (λ j p h. c.mark now worker token j issued p h) all
  Step-All (fingerprinted q id token now digest job h) all =
      let (p, s) = held_row u digest_of shown Issued P c id token q.jobs job h all in
      let noted = record job { transcript_digest = some digest } in
      All-save P All_kept now noted q.jobs (c.same job noted (ground arith) p) all
  Step-All (restarted q has_segments now fresh transcripts) all =
      All-rebuild u digest_of shown Issued P c has_segments now fresh transcripts q all
  Step-All (beaten q id token now job h) all =
      let (p, s) = held_row u digest_of shown Issued P c id token q.jobs job h all in
      All-save P All_kept now (heartbeat now job) q.jobs
        (unfold heartbeat in c.same job _ (ground arith) p) all
  Step-All (reported q id token now progress checkpoint job h) all =
      let (p, s) = held_row u digest_of shown Issued P c id token q.jobs job h all in
      All-save P All_kept now (report now progress checkpoint job) q.jobs
        (c.noted now progress checkpoint job s p) all
  Step-All (released q id token now r job h) all =
      let (p, s) = held_row u digest_of shown Issued P c id token q.jobs job h all in
      All-save P All_kept now (release now r job) q.jobs (c.freed now r job p) all
  Step-All (failed q id token now e job h) all =
      let (p, s) = held_row u digest_of shown Issued P c id token q.jobs job h all in
      All-save P All_kept now (fail q.settings.job_max_attempts now e job) q.jobs
        (c.tried _ now e job p) all
  Step-All (completed q id token now s path job h) all =
      let (p, _) = held_row u digest_of shown Issued P c id token q.jobs job h all in
      let noted = record job { note_path = path } in
      All-save P All_kept now (written now s noted) q.jobs
        (c.wrote now s noted (c.same job noted (ground arith) p)) all
  Step-All (pathed q id token now path job h) all =
      let (p, _) = held_row u digest_of shown Issued P c id token q.jobs job h all in
      let noted = record job { note_path = path } in
      All-save P All_kept now noted q.jobs (c.same job noted (ground arith) p) all
  Step-All (postponed q id token now path job h) all =
      let (p, _) = held_row u digest_of shown Issued P c id token q.jobs job h all in
      let noted = record job { note_path = path } in
      All-save P All_kept now (release now 0 noted) q.jobs
        (c.freed now 0 noted (c.same job noted (ground arith) p)) all
  Step-All (settled q id token now s path job h) all =
      let (p, _) = held_row u digest_of shown Issued P c id token q.jobs job h all in
      let noted = record job { note_path = path } in
      All-save P All_kept now (settle now s noted) q.jobs
        (c.ended now s noted (c.same job noted (ground arith) p)) all
  Step-All (retried q id now job job' found again) all =
      All-save P All_kept now job' q.jobs
        (c.again job job' again (All-retrieve P All_kept id q.jobs all found)) all
  Step-All (reclaimed q now stale_after) all =
      All-bulk_update P All_kept now (is_stale now stale_after) _ q.jobs (λ j t p. c.lost j p) all
  Step-All (purged q now retention) all =
      All-bulk_update P All_kept now (is_expired now retention) _ q.jobs (λ j t p. c.emptied j p)
        all
  Step-All (hidden q now) all =
      All-bulk_update P All_kept now (is_decided q.decisions) (settle_row now) q.jobs
        (P-settle_row q.decisions now) all
  Step-All (trivial q now seen job) all =
      All-bulk_update P All_kept now (is_noteless job seen) (settle_noteless now) q.jobs
        (P-settle_noteless job seen now) all
  Step-All (refined q id now job found d) all =
      All-save P All_kept now (reopen now job) q.jobs
        (c.reopened now job (ground arith) (All-retrieve P All_kept id q.jobs all found)) all
  Step-All (looked q id now job found) all =
      All-save P All_kept now job q.jobs (All-retrieve P All_kept id q.jobs all found) all
  Step-All (put_off q id now job found d) all =
      All-save P All_kept now (record job { completed_at = some now }) q.jobs
        (c.put_off now job (ground arith) (All-retrieve P All_kept id q.jobs all found)) all
  Step-All (rebuilt q id now job found) all =
      All-save P All_kept now (requeue job) q.jobs
        (c.requeued job (All-retrieve P All_kept id q.jobs all found)) all
  Step-All (ensured q id now kind s project path) all =
      All-ensure_background u digest_of shown Issued P c id now kind s project path q.jobs all
  Step-All (merged q id now project name path document) all =
      All-ensure_memory_merge u digest_of shown Issued P c id now project name path document q.jobs
        all
  Step-All (renamed q now source target) all =
      All-relabel u digest_of shown Issued P c now (λ j. j.project == source)
        (λ j. record j { base = record j.base { project = target } }) q.jobs (λ j. ground arith) all
  Step-All (relinked q now moves) all = All-relink u digest_of shown Issued P c now moves q.jobs all
  Step-All (deleted q slugs) all = All-delete_where P _ q.jobs all
  Step-All (dropped_kind q project kind) all = All-delete_where P _ q.jobs all
  Step-All (dropped q job) all = All-delete_where P _ q.jobs all
  Step-All (parted q project) all = All-delete_where P (is_open_pair project) q.jobs all
  Step-All (carried q fresh now source target base) all =
      All-carry_memory_merges u digest_of shown Issued P c fresh now source target base q.jobs all
  Step-All (forgotten q id now key verdict reason) all =
      All-forgotten u digest_of shown Issued P c now key verdict _ q.jobs
        (λ j e. All-find_by_session P All_kept key q.jobs all e) all
  Step-All (configured q decisions providers aliases settings) all = all
  Step-All (allowed q id) all = all

  -- A closed predicate of the rows holds in every reachable queue.
  pub Reach-All : {q r : Queue} → Reach u digest_of shown Issued q r → All P q.jobs → All P r.jobs
  Reach-All here all = all
  Reach-All (next run step) all = Step-All step (Reach-All run all)
