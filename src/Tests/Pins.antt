-- ===== src/Tests/Pins.antt =====
-- A summary of three requests, of which the second was moved to another project.
use knowledgebase_storage.Common.{ℕ, ◌≡◌, refl, [], ◌∷◌}
use knowledgebase_storage.Pins.{NotePin, SessionItem, SessionNote, repinned}
use knowledgebase_storage.Pins.Grouping.{items_of, total, all_belonging, repinned_lem}
use knowledgebase_storage.Tests.Data.{key}

abbrev item : ℕ → SessionItem
item n = record { number = n; content = "asked" }

abbrev summary : SessionNote
summary = record { header = "h"; items = item 1 ∷ item 2 ∷ item 3 ∷ []; project = "" }

abbrev second_moved : NotePin
second_moved = record { id = 1; key = key; project = "site"; first_request = 2; last_request = 0 }

moved : items_of "site" (repinned (summary ∷ []) (second_moved ∷ []) "demo") ≡ item 2 ∷ []
unfolding repinned
moved = refl

repinned_lem_example :
    (items_of "demo" (repinned (summary ∷ []) (second_moved ∷ []) "demo")
      ≡ all_belonging (second_moved ∷ []) "demo" "demo" (summary ∷ []))
    × (total (repinned (summary ∷ []) (second_moved ∷ []) "demo") ≡ 3)
repinned_lem_example = repinned_lem (summary ∷ []) (second_moved ∷ []) "demo" "demo"
