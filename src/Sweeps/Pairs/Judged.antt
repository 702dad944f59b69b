-- ===== src/Sweeps/Pairs/Judged.antt =====
-- Every pair of projects whose folders meet is asked about: `pairs_worth_judging` of
-- backend/services/background.py.
use mathlib.Core.List.Memᴰ
use knowledgebase_storage.Common.{
  String, ◌≡◌, refl, sym, ap, ◌∙◌, subst, ◌⊎◌, inl, inr, true, false, none, some, List, [], ◌∷◌,
  ◌++◌, map, Memᴰ, arith, ◌==◌, eq_iff, Bool-cases, contains,
}
use knowledgebase_storage.Common.Dict.{lookup}
use knowledgebase_storage.Common.Table.Members.{mem-keep, mem-order_by}
use knowledgebase_storage.Common.Members.{mem-append, mem-append_right, mem-map}
use knowledgebase_storage.Names.{CharTables}
use knowledgebase_storage.Aliases.{ProjectAlias}
use knowledgebase_storage.Links.{ProjectLink, find}
use knowledgebase_storage.Entries.{EntrySource, ProjectEntry}
use knowledgebase_storage.Sweeps.Pairs.{
  text_lt, is_nested, Owners, owners_of, nested_groups, combined, groups_of, same_pair, has_pair,
  once, pair_lt, slugs_of, resolved_pair, is_worth, pairs_worth_judging,
}
use knowledgebase_storage.Sweeps.Pairs.Owned.{
  Owns, owners_of-Owns_self, contains-append, contains-append_right,
}
use knowledgebase_storage.Sweeps.Pairs.Combined.{mem-combined, mem-lookup, mem-nested_groups}

one_value :
    (path other : String) (held outside : List String) (owners : Owners)
    → lookup path owners ≡ some held
    → lookup other owners ≡ some outside
    → path ≡ other
    → outside ≡ held
one_value path other held outside owners found found' e =
    let both : some outside ≡ some held =
      sym found' ∙ ap (λ (p : String). lookup p owners) (sym e) ∙ found in
    cc

mem-groups :
    (path other a b : String) (owners : Owners)
    → Owns path a owners
    → Owns other b owners
    → (path ≡ other) ⊎ (is_nested path other ≡ true)
    → (held : List String) × Memᴰ held (groups_of owners)
      × (contains held a ≡ true)
      × (contains held b ≡ true)
unfolding Owns
mem-groups path other a b owners (held, found, has) (outside, found', has') (inl e) = (
  held,
  mem-append held (map (λ o. o.1) owners) (nested_groups owners owners) (
      mem-map (λ (o : String × List String). o.1) (path, held) owners
        (mem-lookup path held owners found)),
  has,
  subst (λ (h : List String). contains h b ≡ true)
      (one_value path other held outside owners found found' e) has',
)
mem-groups path other a b owners (held, found, has) (outside, found', has') (inr e) = (
  held ++ outside,
  mem-append_right (held ++ outside) (map (λ o. o.1) owners) (nested_groups owners owners) (
      mem-nested_groups path other held outside owners owners (mem-lookup path held owners found)
        (mem-lookup other outside owners found') e),
  contains-append held outside a has,
  contains-append_right held outside b has',
)

same_pair_eq : (q r : String × String) → same_pair r q ≡ true → q ≡ r
same_pair_eq (a, b) (c, d) h = ground (arith, eq_iff c a, eq_iff d b)

mem-has_pair :
    (q : String × String) (qs : List (String × String)) → has_pair qs q ≡ true → Memᴰ q qs
mem-has_pair q [] h = absurd (cc)
mem-has_pair q (r ∷ rs) h = elim (Bool-cases (same_pair r q)) [
  | inl e ↦ Memᴰ.head (same_pair_eq q r e)
  | inr e ↦ Memᴰ.tail (mem-has_pair q rs (rw e at h))
]

mem-once : (p : String × String) (ps : List (String × String)) → Memᴰ p ps → Memᴰ p (once ps)
unfolding once
mem-once p [] m = m
mem-once p (q ∷ qs) m = elim (Bool-cases (has_pair qs q)) [
  | inl e ↦ rw e (elim (Memᴰ.cases_cons m) [
    | inl same ↦
        mem-once p qs (subst (λ (r : String × String). Memᴰ r qs) (sym same) (mem-has_pair q qs e))
    | inr n ↦ mem-once p qs n
  ])
  | inr e ↦
      rw e (elim (Memᴰ.cases_cons m) [
        | inl same ↦ Memᴰ.head same
        | inr n ↦ Memᴰ.tail (mem-once p qs n)
      ])
]

module _ (u : CharTables) (aliases : List ProjectAlias) where
  is_worth_lem :
      (existing : List String) (links : List ProjectLink) (p : String × String)
      → (p.0 == p.1) ≡ false
      → contains existing p.0 ≡ true
      → contains existing p.1 ≡ true
      → find links p.0 p.1 ≡ none
      → is_worth u aliases existing links p ≡ true
  unfolding is_worth
  is_worth_lem existing links p apart left right free = rw (apart, left, right, free) refl

  -- Two projects whose entries have a folder in common, or a folder of one within a folder of the other, are
  -- among the pairs to be judged, under the names that their slugs lead to, if these are two projects that
  -- exist and that no link joins. The first is the one whose slug comes first.
  pub pairs_worth_judging-meets :
      (slugs : List String) (shared : List (String × String)) (entries : List ProjectEntry)
      (links : List ProjectLink) (one two : ProjectEntry) (s t : EntrySource)
      → Memᴰ one entries
      → Memᴰ two entries
      → Memᴰ s one.sources
      → Memᴰ t two.sources
      → (s.path == "") ≡ false
      → (t.path == "") ≡ false
      → (s.path ≡ t.path) ⊎ (is_nested s.path t.path ≡ true)
      → text_lt one.slug two.slug ≡ true
      → let pair = resolved_pair u aliases (one.slug, two.slug) in
        (pair.0 == pair.1) ≡ false
        → contains (slugs ++ slugs_of entries) pair.0 ≡ true
        → contains (slugs ++ slugs_of entries) pair.1 ≡ true
        → find links pair.0 pair.1 ≡ none
        → Memᴰ pair (pairs_worth_judging u aliases slugs shared entries links)
  unfolding pairs_worth_judging
  pairs_worth_judging-meets slugs shared entries links one two s t m n k l full full' meet lt apart
        left right free =
      let existing = slugs ++ slugs_of entries in
      let owners = owners_of entries [] in
      let (held, there, has, has') =
        mem-groups s.path t.path one.slug two.slug owners
          (owners_of-Owns_self one s entries [] m k full)
          (owners_of-Owns_self two t entries [] n l full') meet in
      let raw = combined (groups_of owners) ++ shared in
      let pair = resolved_pair u aliases (one.slug, two.slug) in
      let judged =
        mem-map (resolved_pair u aliases) (one.slug, two.slug) raw
          (mem-append (one.slug, two.slug) (combined (groups_of owners)) shared
            (mem-combined one.slug two.slug held (groups_of owners) lt there has has')) in
      mem-order_by pair_lt pair _ (
        mem-once pair _ (
          mem-keep (is_worth u aliases existing links) pair (map (resolved_pair u aliases) raw)
            judged (is_worth_lem existing links pair apart left right free)))
