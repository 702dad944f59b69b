-- ===== src/Tests/Projects.antt =====
-- The project `demo` is merged into `site`: it has a job, a pin, a link and an entry.
use mathlib.Core.List.Memᴰ
use knowledgebase_storage.Common.{◌≡◌, refl, String, true, false, map, ◌<>◌, some, [], ◌∷◌}
use knowledgebase_storage.Common.Result.{Result, ok, raised, invalid_project_merge}
use knowledgebase_storage.Models.{Job, background_session}
use knowledgebase_storage.Queue.Service.{fresh_job}
use knowledgebase_storage.Links.{ProjectLink, related, collect}
use knowledgebase_storage.Links.Hierarchy.{IsHierarchy}
use knowledgebase_storage.Aliases.{resolve}
use knowledgebase_storage.Aliases
use knowledgebase_storage.Projects.{Tables, Absorbed, Fresh, merge}
use knowledgebase_storage.Projects.Forgotten.{IsForgotten, IsReady, merge-IsForgotten}
use knowledgebase_storage.Tests.Data.{ascii, digest, shown, key, post, says}

abbrev demo_link : ProjectLink
demo_link = record {
  id = 1;
  kind = related;
  source = "demo";
  target = "suite";
  description = "";
  stated_by_user = "";
  confirmed = false;
  unrelated = false;
  summarizer = "";
}

abbrev before : Tables
before = record {
  jobs = fresh_job ascii digest shown 1 100 post ∷ [];
  aliases = record { source = "old"; slug = "demo" } ∷ [];
  pins = record { id = 1; key = key; project = "demo"; first_request = 2; last_request = 0 } ∷ [];
  links = demo_link ∷ [];
  entries =
      record { id = 1; slug = "demo"; description = "a demo"; sources = []; container = false }
      ∷ [];
}

abbrev fresh_rows : Fresh
fresh_rows = record { merging = λ n. n; carried = λ m n. n; overview = λ n. 9 }

abbrev found_files : String → String → Absorbed
found_files source into = record {
  moves = ("projects/demo/log/a.md", "projects/site/log/a.md") ∷ [];
  merging = ("b.md", says "two versions") ∷ [];
}

abbrev merged : String → String → Result (String × Tables)
merged from into = merge ascii fresh_rows 200 (λ _. true) (λ _. true) found_files from into before

abbrev tables_of : Result (String × Tables) → Tables
tables_of (ok (into, t)) = t
tables_of (raised e) = before

abbrev after : Tables
after = tables_of (merged "demo" "site")

into_itself : merged "demo" "demo" ≡ raised invalid_project_merge
unfolding merge
into_itself = refl

before-IsReady : IsReady "demo" before
unfolding collect
before-IsReady = record {
  hierarchy = record { tidy = (tt, tt); acyclic = λ x y m. absurd (Memᴰ.not-nil m) };
  plain = (refl, tt);
  entries = record { ids = (tt, tt); slugs = (tt, tt) };
}

projects_after :
    map (λ (j : Job). j.project <> ("/" <> j.key.session_id)) after.jobs
    ≡ "site/s1" ∷ "site/memory_merge:site/b.md" ∷ "site/project_overview:site" ∷ []
unfolding merge fresh_job background_session
projects_after = refl

merge-IsForgotten_example :
    IsForgotten "demo" after
    × IsHierarchy after.links
    × (Aliases.target after.aliases "demo" ≡ some "site")
unfolding merge
merge-IsForgotten_example =
    merge-IsForgotten ascii fresh_rows 200 (λ _. true) (λ _. true) found_files "demo" "site" before
      {into = "site"} {after = after} refl refl before-IsReady (refl, tt)
