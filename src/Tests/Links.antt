-- ===== src/Tests/Links.antt =====
-- The links on three projects: `app` is part of `suite`, and `suite` is stated to be part of `house`.
use mathlib.Core.List.Memᴰ
use knowledgebase_storage.Common.{
  ◌≡◌, refl, ◌≢◌, ◌⊎◌, true, false, some, List, [], ◌∷◌, arith, eq_iff, All, String,
}
use knowledgebase_storage.Common.Result.{ok, raised, link_would_cycle}
use knowledgebase_storage.Links.{
  ProjectLink, part_of, collect, touches, save_link, upward_edges, walk, around, find, would_cycle,
}
use knowledgebase_storage.Links.Graph.{Up}
use knowledgebase_storage.Links.Walk.{would_cycle_lem}
use knowledgebase_storage.Links.Hierarchy.{IsHierarchy}
use knowledgebase_storage.Links.Carry.{carry_links, carry_one, carry_each, weaken_one, weaken_each}
use knowledgebase_storage.Links.Carry.Joined.{Joined}
use knowledgebase_storage.Links.Carry.Handed.{carry_links_lem}
use knowledgebase_storage.Links.Service.{
  other_of, ProjectLinkWrite, write, drop, write_between, new_link,
}
use knowledgebase_storage.Links.Edits.{write_between-keeps}
use knowledgebase_storage.Links.Runs.{LinkStep, rest, next, wrote, dropped, reachable-IsHierarchy}
use knowledgebase_storage.Aliases.{resolve}
use knowledgebase_storage.Tests.Data.{ascii}

abbrev app_in_suite : ProjectLink
app_in_suite = record (new_link 1 part_of "app" "suite") { confirmed = true }

abbrev one_link : List ProjectLink
one_link = app_in_suite ∷ []

abbrev suite_in_app : ProjectLinkWrite
suite_in_app = record {
  kind = part_of;
  source = "suite";
  target = "app";
  description = "";
  stated_by_user = "";
  confirmed = true;
  summarizer = "";
}

abbrev suite_in_house : ProjectLinkWrite
suite_in_house = record suite_in_app { target = "house" }

would_cycle_lem_example :
    (walk 3 (("app", "suite") ∷ []) "house" [] ("app" ∷ [])
      ≡ some (would_cycle one_link "house" "app"))
    × (would_cycle one_link "house" "app" ≡ true → Up (("app", "suite") ∷ []) "app" "house")
    × (would_cycle one_link "house" "app" ≡ false → ¬ Up (("app", "suite") ∷ []) "app" "house")
unfolding upward_edges new_link
would_cycle_lem_example = would_cycle_lem one_link "house" "app"

nothing_linked : IsHierarchy []
unfolding collect
nothing_linked = record { tidy = tt; acyclic = λ x y m. absurd (Memᴰ.not-nil m) }

write_between-keeps_example :
    (write_between 1 suite_in_house "suite" "house" [] ≡ raised link_would_cycle
      × true ≡ true
      × Up [] "house" "suite")
    ⊎ ((l : ProjectLink) × (ls : List ProjectLink) × (write_between 1 suite_in_house "suite" "house"
            []
          ≡ ok (l, ls))
        × (l.kind ≡ part_of)
        × (l.source ≡ "suite")
        × (l.target ≡ "house")
        × (l.confirmed ≡ true)
        × IsHierarchy ls)
unfolding upward_edges
write_between-keeps_example =
    write_between-keeps 1 suite_in_house "suite" "house" [] nothing_linked tt

abbrev house : ProjectLink
house = record (new_link 1 part_of "suite" "house") { confirmed = true }

house_step : LinkStep ascii [] (house ∷ [])
unfolding write new_link would_cycle resolve find save_link
house_step = wrote {links = []} {ls = house ∷ []} {l = house} [] 1 suite_in_house tt refl

reachable-IsHierarchy_example : IsHierarchy (drop ascii [] "house" "suite" (house ∷ [])).1
reachable-IsHierarchy_example =
    reachable-IsHierarchy ascii (next house_step (next (dropped [] "house" "suite") rest))
      nothing_linked

house_linked : IsHierarchy (house ∷ [])
house_linked = reachable-IsHierarchy ascii (next house_step rest) nothing_linked

suite_is_not_app : ◌≢◌ {A = String} "suite" "app"
suite_is_not_app = ground (arith, eq_iff "suite" "app")

-- `suite` is merged into `app`
carry_links_lem_example :
    IsHierarchy (carry_links "suite" "app" (house ∷ []))
    × All (λ l. touches "suite" l ≡ false) (carry_links "suite" "app" (house ∷ []))
    × All
        (λ l.
          touches "suite" l ≡ true
          → other_of "suite" l ≢ "app"
          → Joined "app" (other_of "suite" l) (carry_links "suite" "app" (house ∷ [])))
        (house ∷ [])
unfolding new_link
carry_links_lem_example =
    carry_links_lem "suite" "app" (house ∷ []) suite_is_not_app house_linked (refl, tt)

suite_carried : carry_links "suite" "app" (house ∷ []) ≡ record house { source = "app" } ∷ []
unfolding carry_links carry_one carry_each weaken_one weaken_each around find save_link would_cycle
    new_link
suite_carried = refl
