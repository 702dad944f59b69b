-- ===== src/Projects/Jobs.antt =====
-- What a merge of backend/services/projects.py leaves of the merged project in the job table.
use knowledgebase_storage.Common.{
  ℕ, String, ◌≡◌, refl, inl, inr, false, not, Option, none, some, List, [], ◌∷◌, arith, ◌==◌,
  Bool-cases, All, contains,
}
use knowledgebase_storage.Common.Table.Laws.{All-update_where_turn, All-delete_where, All-members}
use knowledgebase_storage.Common.Table.Members.{mem-keep_back}
use knowledgebase_storage.Common.Table.{delete_where}
use knowledgebase_storage.Models.{Job, project_overview}
use knowledgebase_storage.Queue.{bulk_update, find_by_session}
use knowledgebase_storage.Queue.Tables.{Keeps, All-save, All-bulk_update}
use knowledgebase_storage.Queue.Background.{
  drop_background, ensure_background, rename_project, rearm, background_job, or_new, is_idle,
  relink, relink_one, background_key,
}
use knowledgebase_storage.Common.Texts.{parts_from}
use knowledgebase_storage.Queue.Merges.{is_open_pair, drop_pairs}
use knowledgebase_storage.Sweeps.{request_overview, ProjectState}

-- A name that is not this one.
abbrev pub Other : String → String → Type 0
Other name s = (s == name) ≡ false

-- a job that does not belong to the project, and is no open job on a pair with it
unfoldable pub Parted : String → Job → Type 0
unfolding is_open_pair
Parted project j = Other project j.project × (is_open_pair project j ≡ false)

Parted-Keeps : (project : String) → Keeps (Parted project)
unfolding Parted
Parted-Keeps project = record { touch = λ now j h. h }

pub drop_pairs-All :
    (project : String) (jobs : List Job)
    → All (λ j. is_open_pair project j ≡ false) (drop_pairs project jobs).1
unfolding drop_pairs delete_where
drop_pairs-All project jobs =
    All-members (λ j. is_open_pair project j ≡ false) _
      (λ j m.
        let (there, t) = mem-keep_back (λ j. not (is_open_pair project j)) j jobs m in
        ground (arith, t))

pub rename_project-Parted :
    (now : ℕ) (source into : String) (jobs : List Job)
    → Other source into
    → All (λ j. is_open_pair source j ≡ false) jobs
    → All (Parted source) (rename_project now source into jobs)
unfolding rename_project bulk_update Parted
rename_project-Parted now source into jobs o all =
    All-update_where_turn _ (Parted source) _ _ jobs (λ j e h. (o, h)) (λ j e h. (e, h)) all

rearm-Parted :
    (project : String) (now : ℕ) (slug : String) (path : Option String) (j : Job)
    → Other project slug
    → Parted project (rearm now project_overview slug path j)
unfolding Parted rearm is_open_pair
rearm-Parted project now slug path j o = (o, refl)

ensure_background-Parted :
    (project : String) (id now : ℕ) (session_id slug : String) (path : Option String)
    (jobs : List Job)
    → Other project slug
    → All (Parted project) jobs
    → All (Parted project) (ensure_background id now project_overview session_id slug path jobs).1
unfolding ensure_background
ensure_background-Parted project id now session_id slug path jobs o all =
    let existing = find_by_session (background_key session_id) jobs in
    elim (Bool-cases (is_idle existing)) [
      | inl e ↦ rw e (
          All-save (Parted project) (Parted-Keeps project) now _ jobs
            (rearm-Parted project now slug path
              (or_new existing (background_job id session_id slug now)) o)
            all)
      | inr e ↦ rw e all
    ]

pub request_overview-Parted :
    (project : String) (fresh : ℕ → ℕ) (now : ℕ) (state : ProjectState) (n : ℕ) (jobs : List Job)
    → Other project state.slug
    → All (Parted project) jobs
    → All (Parted project) (request_overview fresh now state n jobs).1
unfolding request_overview drop_background
request_overview-Parted project fresh now state n jobs o all = elim (Bool-cases state.has_logs) [
  | inl e ↦ rw e (ensure_background-Parted project (fresh n) now _ state.slug none jobs o all)
  | inr e ↦ rw e (All-delete_where (Parted project) _ jobs all)
]

-- the paths that notes move to are no pairs with the project
abbrev pub KeepsApart : String → List (String × String) → Type 0
KeepsApart project moves = All (λ m. contains (parts_from "~" "" m.1) project ≡ false) moves

relinked-Parted :
    (project new : String) (j : Job)
    → contains (parts_from "~" "" new) project ≡ false
    → Parted project j
    → Parted project (record j { note_path = some new })
unfolding Parted is_open_pair
relinked-Parted project new j apart h = (h.0, ground (arith, apart))

relink_one-Parted :
    (project : String) (now : ℕ) (old new : String) (jobs : List Job)
    → contains (parts_from "~" "" new) project ≡ false
    → All (Parted project) jobs
    → All (Parted project) (relink_one now old new jobs)
unfolding relink_one
relink_one-Parted project now old new jobs apart all =
    All-bulk_update (Parted project) (Parted-Keeps project) now _
      (λ j. record j { note_path = some new }) jobs (λ j e h. relinked-Parted project new j apart h)
      all

pub relink-Parted :
    (project : String) (now : ℕ) (moves : List (String × String)) (jobs : List Job)
    → KeepsApart project moves
    → All (Parted project) jobs
    → All (Parted project) (relink now moves jobs)
unfolding relink
relink-Parted project now [] jobs apart all = all
relink-Parted project now ((old, new) ∷ moves) jobs apart all =
    relink-Parted project now moves (relink_one now old new jobs) apart.1
      (relink_one-Parted project now old new jobs apart.0 all)
