-- ===== src/Links/Carry.antt =====
-- `carry_links` of backend/services/projects.py: the links of a project that is merged into another. The
-- rows that a query gave are those of the table then; what is written to one of them is written to the
-- table's row of that identifier.
pub mod Weaken
pub mod Moves
pub mod Joined
pub mod Handed
use knowledgebase_storage.Common.{
  String, Bool, ◌&&◌, ◌||◌, List, [], ◌∷◌, ◌==◌, eqb, if◌then◌else◌, is_some,
}
use knowledgebase_storage.Common.Table.{delete_where}
use knowledgebase_storage.Links.{
  ProjectLink, related, is_part_of, find, around, would_cycle, save_link,
}
use knowledgebase_storage.Links.Service.{other_of}

-- `link.source = target` or `link.target = target`
unfoldable pub moved_link : (source target : String) → ProjectLink → ProjectLink
moved_link source target link =
    if link.source == source
    then record link { source = target }
    else record link { target = target }

-- One link around the project that is merged away.
unfoldable pub carry_one :
    (source target : String) → ProjectLink → List ProjectLink → List ProjectLink
unfolding moved_link delete_where
carry_one source target link links =
    let other = other_of source link in
    if other == target || is_some (find links target other)
    then delete_where (λ l. eqb l.id link.id) links
    else save_link (moved_link source target link) links

unfoldable pub carry_each :
    (source target : String) → List ProjectLink → List ProjectLink → List ProjectLink
carry_each source target [] links = links
carry_each source target (l ∷ ls) links =
    carry_each source target ls (carry_one source target l links)

-- One link around the project that took the links over.
unfoldable pub weaken_one : ProjectLink → List ProjectLink → List ProjectLink
weaken_one link links =
    if is_part_of link.kind && would_cycle links link.source link.target
    then save_link (record link { kind = related }) links
    else links

unfoldable pub weaken_each : List ProjectLink → List ProjectLink → List ProjectLink
weaken_each [] links = links
weaken_each (l ∷ ls) links = weaken_each ls (weaken_one l links)

unfoldable pub carry_links : (source target : String) → List ProjectLink → List ProjectLink
unfolding carry_each weaken_each
carry_links source target links =
    let carried = carry_each source target (around links source) links in
    weaken_each (around carried target) carried
