-- ===== src/Projects/Forgotten.antt =====
-- `merge` of backend/services/projects.py: no table names the merged project afterwards.
use knowledgebase_storage.Common.{
  ℕ, String, ◌≡◌, sym, ap, subst, ◌≢◌, inl, inr, Bool, true, false, some, List, arith, ◌==◌, eq_iff,
  Bool-cases, All,
}
use knowledgebase_storage.Common.Result.{ok, raised, resource_not_found, invalid_project_merge}
use knowledgebase_storage.Names.{CharTables, slugify}
use knowledgebase_storage.Models.{Job, project_overview}
use knowledgebase_storage.Models.Json.{Message}
use knowledgebase_storage.Aliases.{redirect, resolve}
use knowledgebase_storage.Aliases
use knowledgebase_storage.Aliases.Chains.{target-redirect_source}
use knowledgebase_storage.Links.{touches, joins}
use knowledgebase_storage.Links.Hierarchy.{IsHierarchy}
use knowledgebase_storage.Links.Carry.Handed.{carry_links_lem}
use knowledgebase_storage.Queue.Background.{relink, drop_background}
use knowledgebase_storage.Queue.Merges.{carry_memory_merges, drop_pairs}
use knowledgebase_storage.Sweeps.{ProjectState}
use knowledgebase_storage.Projects.{
  Tables, Absorbed, Fresh, absorb, absorb_jobs, merge_memories, memory_base, merge, merge_target,
  require,
}
use knowledgebase_storage.Projects.Jobs.{
  Other, Parted, KeepsApart, drop_pairs-All, rename_project-Parted, request_overview-Parted,
  relink-Parted,
}
use knowledgebase_storage.Projects.Rows.{redirect-Other, settle-Other, carry-Other}
use knowledgebase_storage.Projects.Listed.{AreUnique, carry_entry-Other}

-- No job, alias, pin, link or entry names the project.
pub record IsForgotten (project : String) (t : Tables) : Type 0 where
  pub jobs : All (Parted project) t.jobs
  pub aliases : All (λ a. Other project a.slug) t.aliases
  pub pins : All (λ p. Other project p.project) t.pins
  pub links : All (λ l. touches project l ≡ false) t.links
  pub entries : All (λ e. Other project e.slug) t.entries

-- What a merge relies on: the links are a hierarchy and none joins the project to itself, and the
-- entries are unique.
pub record IsReady (project : String) (t : Tables) : Type 0 where
  pub hierarchy : IsHierarchy t.links
  pub plain : All (λ l. joins project project l ≡ false) t.links
  pub entries : AreUnique t.entries

apart_names : (source into : String) → Other source into → source ≢ into
apart_names source into o e = ground (arith, eq_iff into source, sym e, o)

swapped_names : (source into : String) → Other source into → (source == into) ≡ false
swapped_names source into o = ground (arith, eq_iff into source, eq_iff source into, o)

absorb_jobs-Parted :
    (fresh : Fresh) (now : ℕ) (source into : String) (merging : List (String × Message))
    (jobs : List Job)
    → Other source into
    → All (Parted source) (absorb_jobs fresh now source into merging jobs)
unfolding absorb_jobs
absorb_jobs-Parted fresh now source into merging jobs o =
    let asked = merge_memories fresh.merging now into merging jobs in
    let carried = (carry_memory_merges fresh.carried now source into (memory_base into) asked).1 in
    let kept = drop_background source project_overview carried in
    rename_project-Parted now source into (drop_pairs source kept).1 o (drop_pairs-All source kept)

module _ (u : CharTables) where
  absorb-IsForgotten :
      (fresh : Fresh) (now : ℕ) (has_logs : Bool) (absorbed : Absorbed) (source into : String)
      (t : Tables)
      → Other source into
      → slugify u into ≡ into
      → IsReady source t
      → IsForgotten source (absorb u fresh now has_logs absorbed source into t)
        × IsHierarchy (absorb u fresh now has_logs absorbed source into t).links
        × (Aliases.target (absorb u fresh now has_logs absorbed source into t).aliases source
            ≡ some into)
  unfolding absorb resolve
  absorb-IsForgotten fresh now has_logs absorbed source into t o slug ready =
      let aliases = redirect-Other t.aliases source into o in
      let state : ProjectState = record {
        directory = into;
        slug = resolve u (redirect t.aliases source into) into;
        is_stale_overview = true;
        has_logs = has_logs;
      } in
      let links =
        carry_links_lem source into t.links (apart_names source into o) ready.hierarchy
          ready.plain in
      (
        record {
          jobs =
              request_overview-Parted source fresh.overview now state 0 _
                (settle-Other (redirect t.aliases source into) source (slugify u into) aliases
                  (rw slug o))
                (absorb_jobs-Parted fresh now source into absorbed.merging t.jobs o);
          aliases = aliases;
          pins = carry-Other source into t.pins o;
          links = links.1;
          entries = carry_entry-Other source into t.entries o ready.entries;
        },
        links.0,
        target-redirect_source source into (swapped_names source into o) t.aliases,
      )

  abbrev tables_after :
      Fresh
      → ℕ
      → (String → Bool)
      → (String → String → Absorbed)
      → (source into : String) → Tables
      → String × Tables
  tables_after fresh now has_logs absorbed source into t =
      let found = absorbed source into in
      let after = absorb u fresh now (has_logs into) found source into t in
      (into, record after { jobs = relink now found.moves after.jobs })

  -- the source and the target of a merge that is done, and its tables
  merge_ok :
      (fresh : Fresh) (now : ℕ) (has_dir has_logs : String → Bool)
      (absorbed : String → String → Absorbed) (from wanted : String) (t : Tables) (into : String)
      (after : Tables)
      → merge u fresh now has_dir has_logs absorbed from wanted t ≡ ok (into, after)
      → let source = resolve u t.aliases from in
        let found = absorbed source into in
        let absorbed_rows = absorb u fresh now (has_logs into) found source into t in
        ((source == into) ≡ false)
        × (record absorbed_rows { jobs = relink now found.moves absorbed_rows.jobs } ≡ after)
  unfolding merge require
  merge_ok fresh now has_dir has_logs absorbed from wanted t into after done =
      let source = resolve u t.aliases from in
      elim (Bool-cases (has_dir source)) [
        | inr e ↦
            absurd (let no : raised resource_not_found ≡ ok (into, after) = rw e at done in cc)
        | inl e ↦
            let target = merge_target u wanted source t.aliases in
            elim (Bool-cases (source == target)) [
              | inl f ↦ absurd (
                  let no : raised invalid_project_merge ≡ ok (into, after) = rw (e, f) at done in
                  cc)
              | inr f ↦
                  let both : ok (tables_after fresh now has_logs absorbed source target t)
                      ≡ ok (into, after) =
                    rw (e, f) at done in
                  let pair : tables_after fresh now has_logs absorbed source target t
                      ≡ (into, after) =
                    cc in
                  let same : target ≡ into = ap (λ (p : String × Tables). p.0) pair in
                  (
                    subst (λ v. (source == v) ≡ false) same f,
                    subst (λ v. (tables_after fresh now has_logs absorbed source v t).1 ≡ after)
                        same (ap (λ (p : String × Tables). p.1) pair),
                  )
            ]
      ]

  -- A merge that is done, of a project that no link joins to itself, into one whose name is a slug, where the
  -- links are a hierarchy and the entries unique, and no note moves to a path that reads as a pair with the
  -- project: afterwards no job belongs to the project or is an open job on a pair with it, no alias leads to
  -- it, and no pin, link or entry names it; the links are a hierarchy, and the project's name is an alias of
  -- the target.
  pub merge-IsForgotten :
      (fresh : Fresh) (now : ℕ) (has_dir has_logs : String → Bool)
      (absorbed : String → String → Absorbed) (from wanted : String) (t : Tables) {into : String}
      {after : Tables}
      → let source = resolve u t.aliases from in
        merge u fresh now has_dir has_logs absorbed from wanted t ≡ ok (into, after)
        → slugify u into ≡ into
        → IsReady source t
        → KeepsApart source (absorbed source into).moves
        → IsForgotten source after
          × IsHierarchy after.links
          × (Aliases.target after.aliases source ≡ some into)
  unfolding merge require
  merge-IsForgotten fresh now has_dir has_logs absorbed from wanted t {into} {after} done slug ready
        apart =
      let source = resolve u t.aliases from in
      let (differ, same) =
        merge_ok fresh now has_dir has_logs absorbed from wanted t into after done in
      let found = absorbed source into in
      let (gone, hierarchy, alias) =
        absorb-IsForgotten fresh now (has_logs into) found source into t
          (swapped_names into source differ) slug ready in
      subst
        (λ (r : Tables).
          IsForgotten source r
          × IsHierarchy r.links
          × (Aliases.target r.aliases source ≡ some into))
        same
        (
          record {
            jobs = relink-Parted source now found.moves _ apart gone.jobs;
            aliases = gone.aliases;
            pins = gone.pins;
            links = gone.links;
            entries = gone.entries;
          },
          hierarchy,
          alias,
        )
