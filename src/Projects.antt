-- ===== src/Projects.antt =====
-- `merge` and `delete` of backend/services/projects.py over all the tables that name projects. What the
-- moves of files give is an argument: the paths that changed, and the memories of one name in both projects,
-- each with its document. `fresh` gives the identifiers of new rows; `has_dir` says which projects have a
-- directory, and `has_logs` whether the target has logs afterwards.
pub mod Jobs
pub mod Listed
pub mod Rows
pub mod Forgotten
use knowledgebase_storage.Common.{
  ℕ, suc, String, Bool, true, not, List, [], ◌∷◌, ◌==◌, if◌then◌else◌, ◌<>◌,
}
use knowledgebase_storage.Common.Result.{
  Result, ok, ◌>>=◌, ◌>>◌, raise_if, resource_not_found, invalid_project_merge,
}
use knowledgebase_storage.Names.{CharTables, slugify, projects_root, memory_dir}
use knowledgebase_storage.Models.{Job, project_overview}
use knowledgebase_storage.Models.Json.{Message}
use knowledgebase_storage.Aliases.{ProjectAlias, redirect, resolve}
use knowledgebase_storage.Aliases
use knowledgebase_storage.Links.{ProjectLink}
use knowledgebase_storage.Links
use knowledgebase_storage.Links.Carry.{carry_links}
use knowledgebase_storage.Pins.{NotePin, carry}
use knowledgebase_storage.Entries.{ProjectEntry, carry_entry, forget_entries}
use knowledgebase_storage.Queue.Background.{
  ensure_memory_merge, drop_background, rename_project, delete_project, relink,
}
use knowledgebase_storage.Queue.Merges.{carry_memory_merges, drop_pairs}
use knowledgebase_storage.Sweeps.{ProjectState, request_overview}

pub record Tables : Type 0 where
  pub jobs : List Job
  pub aliases : List ProjectAlias
  pub pins : List NotePin
  pub links : List ProjectLink
  pub entries : List ProjectEntry

-- What `_merge_memories` and `_move_notes` find in the directories.
pub record Absorbed : Type 0 where
  pub moves : List (String × String)
  pub merging : List (String × Message)

-- New identifiers: of the merges that are asked for, of those that are carried, and of the overview.
pub record Fresh : Type 0 where
  pub merging : ℕ → ℕ
  pub carried : ℕ → ℕ → ℕ
  pub overview : ℕ → ℕ

abbrev pub memory_base : String → String
memory_base project = projects_root <> ("/" <> (project <> ("/" <> memory_dir)))

-- the memories that both projects have, of `_merge_memories`
unfoldable pub merge_memories :
    (fresh : ℕ → ℕ) (now : ℕ) (target : String) → List (String × Message) → List Job → List Job
unfolding ensure_memory_merge
merge_memories fresh now target [] jobs = jobs
merge_memories fresh now target ((name, document) ∷ rest) jobs =
    merge_memories (λ n. fresh (suc n)) now target rest
      (ensure_memory_merge (fresh 0) now target name (memory_base target <> ("/" <> name)) document
        jobs).1

-- The jobs at the end of `_absorb`, before the overview is asked for.
unfoldable pub absorb_jobs :
    Fresh → (now : ℕ) (source target : String) → List (String × Message) → List Job → List Job
unfolding merge_memories carry_memory_merges drop_background drop_pairs rename_project
absorb_jobs fresh now source target merging jobs =
    let asked = merge_memories fresh.merging now target merging jobs in
    let carried =
      (carry_memory_merges fresh.carried now source target (memory_base target) asked).1 in
    rename_project now source target
      (drop_pairs source (drop_background source project_overview carried)).1

module _ (u : CharTables) where
  -- `_absorb`
  unfoldable pub absorb :
      Fresh → (now : ℕ) (has_logs : Bool) → Absorbed → (source target : String) → Tables → Tables
  unfolding absorb_jobs redirect resolve carry carry_links carry_entry request_overview
  absorb fresh now has_logs absorbed source target t =
      let aliases = redirect t.aliases source target in
      let state : ProjectState = record {
        directory = target;
        slug = resolve u aliases target;
        is_stale_overview = true;
        has_logs = has_logs;
      } in
      record {
        jobs =
            (request_overview fresh.overview now state 0
              (absorb_jobs fresh now source target absorbed.merging t.jobs)).1;
        aliases = aliases;
        pins = carry source target t.pins;
        links = carry_links source target t.links;
        entries = carry_entry source target t.entries;
      }

  -- the target that `merge` resolves; where that leads to the source, it is the name itself
  unfoldable pub merge_target : (wanted source : String) → List ProjectAlias → String
  unfolding resolve slugify
  merge_target wanted source aliases =
      let found = resolve u aliases wanted in if found == source then slugify u wanted else found

  -- `require`
  unfoldable pub require :
      (has_dir : String → Bool) → (name : String) → List ProjectAlias → Result String
  unfolding resolve
  require has_dir name aliases = do
    let slug = resolve u aliases name
    raise_if (not (has_dir slug)) resource_not_found
    ok slug

  -- The target of the merge, and the tables afterwards. `absorbed` says what is found in the directories of
  -- the two projects.
  unfoldable pub merge :
      Fresh
      → (now : ℕ) (has_dir has_logs : String → Bool) (absorbed : String → String → Absorbed)
      → (from into : String) → Tables
      → Result (String × Tables)
  unfolding require merge_target absorb relink
  merge fresh now has_dir has_logs absorbed from into t = do
    source ← require has_dir from t.aliases
    let target = merge_target into source t.aliases
    raise_if (source == target) invalid_project_merge
    let found = absorbed source target
    let after = absorb fresh now (has_logs target) found source target t
    ok (target, record after { jobs = relink now found.moves after.jobs })

  -- `delete`
  unfoldable pub delete : (has_dir : String → Bool) → (name : String) → Tables → Result Tables
  unfolding require delete_project drop_pairs forget_entries Aliases.forget Links.forget
  delete has_dir name t = do
    slug ← require has_dir name t.aliases
    ok (record {
      jobs = (drop_pairs slug (delete_project (slug ∷ []) t.jobs)).1;
      aliases = Aliases.forget t.aliases slug;
      pins = t.pins;
      links = Links.forget (slug ∷ []) t.links;
      entries = forget_entries (slug ∷ []) t.entries;
    })
