-- ===== src/Queue/Merges.antt =====
-- What a merge of two projects, or the deletion of one, does to background jobs: `carry_memory_merges` and
-- `drop_pairs` of backend/repositories/job.py; and `page`, by which jobs are listed. A row that a query gave is
-- an object of the session, so a row is read again when its turn comes. `fresh` gives the identifier of
-- each row that may be made.
use knowledgebase_storage.Common.{
  drop as drop_rows, ℕ, suc, String, Bool, true, false, not, ◌&&◌, ◌||◌, Option, none, some, List,
  [], ◌∷◌, ◌==◌, ltb, if◌then◌else◌, ◌<>◌, take, contains,
}
use knowledgebase_storage.Common.Texts.{parts_from}
use knowledgebase_storage.Common.Table.{count_where, delete_where, select}
use knowledgebase_storage.Models.{
  Job, JobStatus, is_pending, is_claimed, is_failed, memory_merge, project_link, background_session,
  is_done,
}
use knowledgebase_storage.Models.Json.{Message}
use knowledgebase_storage.Queue.{save, retrieve_by_id}
use knowledgebase_storage.Queue.Background.{
  ensure_memory_merge, unfinished_memory_merges, drop, or_empty, kind_eq,
}

abbrev pub or_blank : Option String → String
or_blank none = ""
or_blank (some s) = s

-- the last of the parts that are neither empty nor a dot
unfoldable pub last_name : (found : String) → List String → String
last_name found [] = found
last_name found (part ∷ parts) = last_name (if part == "" || part == "." then found else part) parts

-- `PurePosixPath(path).name`
unfoldable pub path_name : String → String
unfolding last_name parts_from
path_name path = last_name "" (parts_from "/" "" path)

unfoldable pub merge_each :
    (fresh : ℕ → ℕ) (now : ℕ) (target name note_path : String) → List Message → List Job → List Job
unfolding ensure_memory_merge
merge_each fresh now target name note_path [] jobs = jobs
merge_each fresh now target name note_path (document ∷ documents) jobs =
    merge_each (λ n. fresh (suc n)) now target name note_path documents
      (ensure_memory_merge (fresh 0) now target name note_path document jobs).1

-- One unfinished merge; whether it was carried over.
unfoldable pub carry_merge :
    (fresh : ℕ → ℕ) (now : ℕ) (target base : String) → Job → List Job → Bool × List Job
unfolding path_name save merge_each drop or_empty
carry_merge fresh now target base held jobs =
    let name = path_name (or_blank held.note_path) in
    let note_path = base <> ("/" <> name) in
    let renamed = save now (record held { note_path = some note_path }) jobs in
    let merged = merge_each fresh now target name note_path (or_empty held.transcript) jobs in
    if name == ""
    then (false, jobs)
    else if held.key.session_id == background_session memory_merge (target <> ("/" <> name))
    then (false, renamed)
    else (true, drop held merged)

unfoldable pub carry_present :
    (fresh : ℕ → ℕ) (now : ℕ) (target base : String) → Option Job → List Job → Bool × List Job
unfolding carry_merge
carry_present fresh now target base none jobs = (false, jobs)
carry_present fresh now target base (some held) jobs = carry_merge fresh now target base held jobs

unfoldable pub carry_merges :
    (fresh : ℕ → ℕ → ℕ) (now : ℕ) (target base : String) → List Job → List Job → ℕ × List Job
unfolding carry_present retrieve_by_id
carry_merges fresh now target base [] jobs = (0, jobs)
carry_merges fresh now target base (held ∷ rest) jobs =
    let (carried, after) =
      carry_present (fresh 0) now target base (retrieve_by_id held.id jobs) jobs in
    let (n, last) = carry_merges (λ k. fresh (suc k)) now target base rest after in
    (if carried then suc n else n, last)

unfoldable pub carry_memory_merges :
    (fresh : ℕ → ℕ → ℕ) (now : ℕ) (source target base : String) → List Job → ℕ × List Job
unfolding carry_merges unfinished_memory_merges
carry_memory_merges fresh now source target base jobs =
    carry_merges fresh now target base (unfinished_memory_merges source jobs) jobs

-- a job on a pair of projects that is not done, where the project is one of the two
unfoldable pub is_open_pair : String → Job → Bool
unfolding parts_from
is_open_pair project j =
    kind_eq j.kind project_link
    && not (is_done j.status)
    && contains (parts_from "~" "" (or_blank j.note_path)) project

unfoldable pub drop_pairs : String → List Job → ℕ × List Job
unfolding is_open_pair count_where delete_where
drop_pairs project jobs =
    (count_where (is_open_pair project) jobs, delete_where (is_open_pair project) jobs)

-- the rows from `offset` on, `limit` at most, the newest first; and the number of all that pass
unfoldable pub page : (Job → Bool) → (offset limit : ℕ) → List Job → List Job × ℕ
unfolding select count_where
page test offset limit jobs = (
  take limit (drop_rows offset (select test (λ a b. ltb b.created_at a.created_at) jobs)),
  count_where test jobs,
)

abbrev pub status_eq : JobStatus → JobStatus → Bool
status_eq JobStatus.pending s = is_pending s
status_eq JobStatus.claimed s = is_claimed s
status_eq JobStatus.done s = is_done s
status_eq JobStatus.failed s = is_failed s

-- `JobService.list_jobs` of backend/services/jobs.py
unfoldable pub list_jobs : Option JobStatus → (offset limit : ℕ) → List Job → List Job × ℕ
unfolding page
list_jobs none offset limit jobs = page (λ _. true) offset limit jobs
list_jobs (some status) offset limit jobs = page (λ j. status_eq j.status status) offset limit jobs
