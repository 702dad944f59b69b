-- ===== src/Aliases.antt =====
-- backend/repositories/alias.py and `ProjectService.resolve` of backend/services/projects.py: where
-- a merged project's name leads.
pub mod Chains
pub mod Merged
use knowledgebase_storage.Common.{
  ℕ, zero, suc, ◌+◌, ◌-◌, ◌*◌, ◌/◌, ◌%◌, ◌^◌, ◌≤◌, ◌<◌, min, max, String, ◌≡◌, refl, sym, ap, ◌∙◌,
  subst, ◌≢◌, ◌↔◌, ◌⊎◌, inl, inr, Bool, true, false, not, ◌&&◌, ◌||◌, Option, none, some, List, [],
  ◌∷◌, ◌++◌, map, reverse, Memᴰ, arith, ◌==◌, eq_iff, eq_refl, ltb, leb, eqb, if◌then◌else◌,
  Bool-cases, Option-cases, is_none, is_some, holds_text, or_text, take_text, ◌<>◌, length, take,
  All, keep, contains,
}
use mathlib.Core.Option
use knowledgebase_storage.Common.Table.{first, update_where, delete_where}
use knowledgebase_storage.Names.{CharTables, slugify}

pub record ProjectAlias : Type 0 where
  pub source : String
  pub slug : String

unfoldable pub target : List ProjectAlias → String → Option String
unfolding first
target aliases source = Option.map (λ a. a.slug) (first (λ a. a.source == source) aliases)

unfoldable pub redirect : List ProjectAlias → String → String → List ProjectAlias
unfolding delete_where update_where
redirect aliases source_slug target_slug =
    let kept = delete_where (λ a. contains (source_slug ∷ target_slug ∷ []) a.source) aliases in
    let moved =
      update_where (λ a. a.slug == source_slug) (λ a. record a { slug = target_slug }) kept in
    moved ++ record { source = source_slug; slug = target_slug } ∷ []

unfoldable pub forget : List ProjectAlias → String → List ProjectAlias
unfolding delete_where
forget aliases slug = delete_where (λ a. a.slug == slug) aliases

-- `await self.aliases.target(slug) or slug`
unfoldable pub settle : List ProjectAlias → String → String
unfolding target
settle aliases slug = or_text (target aliases slug) slug

unfoldable pub resolve : CharTables → List ProjectAlias → String → String
unfolding settle slugify
resolve u aliases name = settle aliases (slugify u name)
