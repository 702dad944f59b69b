-- ===== src/Tests/Entries.antt =====
-- Two projects of which one is merged into the other, and a folder below the first one's source.
use knowledgebase_storage.Common.{◌≡◌, refl, true, false, [], ◌∷◌}
use knowledgebase_storage.Entries.{EntrySource, ProjectEntry, covers, candidates, carry_entry}

abbrev home_source : EntrySource
home_source = record { path = "/home/demo/"; prefix = "app" }

abbrev work_source : EntrySource
work_source = record { path = "/work"; prefix = "" }

abbrev demo : ProjectEntry
demo = record {
  id = 1;
  slug = "demo";
  description = "a demo";
  sources = home_source ∷ [];
  container = false;
}

abbrev site : ProjectEntry
site = record {
  id = 2;
  slug = "site";
  description = "a site";
  sources = work_source ∷ [];
  container = false;
}

covered : covers "/home/demo/" "/home/demo/src" ≡ true
unfolding covers
covered = refl

beside : covers "/home/demo" "/home/demo2" ≡ false
unfolding covers
beside = refl

found_here :
    candidates "/home/demo/src" (demo ∷ site ∷ [])
    ≡ (("demo", "app") ∷ [], "", "- demo (app): a demo" ∷ [])
unfolding candidates
found_here = refl

carried :
    carry_entry "demo" "site" (demo ∷ site ∷ [])
    ≡ record site { sources = work_source ∷ home_source ∷ [] } ∷ []
unfolding carry_entry
carried = refl
