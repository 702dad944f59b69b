-- ===== src/Projects/Rows.antt =====
-- What a merge of backend/services/projects.py leaves of the merged project among aliases and pins.
use knowledgebase_storage.Common.Table.{update_where, delete_where}
use knowledgebase_storage.Common.{
  contains, [], ◌∷◌, All-unit, String, inl, inr, List, arith, ◌==◌, Option-cases, All,
}
use knowledgebase_storage.Common.Table.Laws.{All-update_where_turn, All-append, All-first}
use knowledgebase_storage.Common.Table.{first}
use knowledgebase_storage.Aliases.{ProjectAlias, target, redirect, settle}
use knowledgebase_storage.Pins.{NotePin, carry}
use knowledgebase_storage.Projects.Jobs.{Other}

-- no alias leads to the project, and it leads to the target
pub redirect-Other :
    (aliases : List ProjectAlias) (source into : String)
    → Other source into
    → All (λ a. Other source a.slug) (redirect aliases source into)
unfolding redirect
redirect-Other aliases source into o =
    let kept = delete_where (λ a. contains (source ∷ into ∷ []) a.source) aliases in
    All-append (λ (a : ProjectAlias). Other source a.slug)
      (update_where (λ a. a.slug == source) (λ a. record a { slug = into }) kept)
      (record { source = source; slug = into } ∷ [])
      (All-update_where_turn (λ _. Unit {0}) (λ a. Other source a.slug) (λ a. a.slug == source)
        (λ a. record a { slug = into }) kept (λ a e h. o) (λ a e h. e) (All-unit kept))
      (o, tt)

pub settle-Other :
    (aliases : List ProjectAlias) (project name : String)
    → All (λ a. Other project a.slug) aliases
    → Other project name
    → Other project (settle aliases name)
unfolding settle target
settle-Other aliases project name all o =
    elim (Option-cases (first (λ a. a.source == name) aliases)) [
      | inl e ↦ rw e o
      | inr (a, e) ↦
          let there = All-first (λ a. Other project a.slug) _ aliases all e in
          rw e (ground (arith, there, o))
    ]

pub carry-Other :
    (source into : String) (pins : List NotePin)
    → Other source into
    → All (λ p. Other source p.project) (carry source into pins)
unfolding carry
carry-Other source into pins o =
    All-update_where_turn (λ _. Unit {0}) (λ p. Other source p.project) _ _ pins (λ p e h. o)
      (λ p e h. e) (All-unit pins)
