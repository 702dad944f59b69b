-- ===== src/Aliases/Chains.antt =====
-- Where names lead after merges and deletions: `redirect` and `forget` of backend/repositories/alias.py,
-- and `ProjectService.resolve` of backend/services/projects.py.
use mathlib.Core.Option
use knowledgebase_storage.Common.{
  String, ◌≡◌, refl, sym, ap, ◌∙◌, subst, inl, inr, Bool, false, not, Option, none, some, List, [],
  ◌∷◌, arith, ◌==◌, eq_iff, eq_refl, if◌then◌else◌, Bool-cases, Option-cases, or_text, All, keep,
  contains,
}
use knowledgebase_storage.Common.Table.{first, update_where, delete_where}
use knowledgebase_storage.Common.Table.Laws.{
  All-first, first-none, All-update_where_turn, All-delete_where, All-append,
}
use knowledgebase_storage.Aliases.{ProjectAlias, target, redirect, forget, settle}

-- the alias does not start at `name`
abbrev pub NotFrom : String → ProjectAlias → Type 0
NotFrom name a = (a.source == name) ≡ false

-- No alias leads to a name that is itself an alias.
abbrev pub IsFlat : List ProjectAlias → Type 0
IsFlat aliases = All (λ a. All (NotFrom a.slug) aliases) aliases

NotFrom-target :
    (name : String) (aliases : List ProjectAlias)
    → All (NotFrom name) aliases
    → target aliases name ≡ none
unfolding target first
NotFrom-target name [] h = refl
NotFrom-target name (a ∷ rest) h = rw (h.0) (NotFrom-target name rest h.1)

abbrev pub moved_by : String → String → String → String
moved_by s t name = if name == s then t else name

other_source : String → String → ProjectAlias → Bool
other_source s t a = not (contains (s ∷ t ∷ []) a.source)

module _ (s t : String) (apart : (s == t) ≡ false) where
  module _ (name : String) (other_s : (name == s) ≡ false) (other_t : (name == t) ≡ false) where
    -- the alias of another name after the merge
    pub target-redirect_other :
        (aliases : List ProjectAlias)
        → target (redirect aliases s t) name ≡ Option.map (moved_by s t) (target aliases name)
    unfolding target redirect first update_where delete_where keep
    target-redirect_other [] = ground (arith, eq_iff s name, eq_iff name s)
    target-redirect_other (a ∷ rest) =
        let e = target-redirect_other rest in
        ground (
          arith,
          e,
          eq_iff a.source s,
          eq_iff a.source t,
          eq_iff a.source name,
          eq_iff name s,
          eq_iff name t,
          eq_iff s name,
          eq_iff t name,
          eq_iff s a.source,
          eq_iff t a.source,
        )

  pub target-redirect_source :
      (aliases : List ProjectAlias) → target (redirect aliases s t) s ≡ some t
  unfolding target redirect first update_where delete_where keep
  target-redirect_source [] = ground (arith, eq_refl s)
  target-redirect_source (a ∷ rest) =
      let e = target-redirect_source rest in ground (arith, e, eq_iff a.source s, eq_iff s a.source)

  target-redirect_target : (aliases : List ProjectAlias) → target (redirect aliases s t) t ≡ none
  unfolding target redirect first update_where delete_where keep
  target-redirect_target [] = ground (arith, apart)
  target-redirect_target (a ∷ rest) =
      let e = target-redirect_target rest in ground (arith, e, eq_iff a.source t, eq_iff t a.source)

target_none-NotFrom :
    (name : String) (aliases : List ProjectAlias)
    → target aliases name ≡ none
    → All (NotFrom name) aliases
unfolding target
target_none-NotFrom name aliases h = first-none (λ a. a.source == name) aliases (ground (arith, h))

module _ (s t : String) (apart : (s == t) ≡ false) where
  -- a name that was no alias is none after the merge, unless it is the one merged away
  target-redirect-none :
      (aliases : List ProjectAlias) (name : String)
      → (name == s) ≡ false
      → target aliases name ≡ none
      → target (redirect aliases s t) name ≡ none
  target-redirect-none aliases name other h = elim (Bool-cases (name == t)) [
    | inl e ↦
        subst (λ n. target (redirect aliases s t) n ≡ none) (sym ((eq_iff name t).0 e))
          (target-redirect_target s t apart aliases)
    | inr e ↦
        target-redirect_other s t apart name other e aliases ∙ ap (Option.map (moved_by s t)) h
  ]

  -- A merge of one project into another leaves the aliases flat.
  pub redirect-IsFlat :
      (aliases : List ProjectAlias) → IsFlat aliases → IsFlat (redirect aliases s t)
  unfolding redirect
  redirect-IsFlat aliases flat =
      let after = redirect aliases s t in
      let ends : String → Type 0 = λ v. All (NotFrom v) after in
      let to_t : ends t = target_none-NotFrom t after (target-redirect_target s t apart aliases) in
      All-append (λ a. ends a.slug) _ _
        (All-update_where_turn (λ a. All (NotFrom a.slug) aliases) (λ a. ends a.slug)
          (λ a. a.slug == s) (λ a. record a { slug = t }) _ (λ a e h. to_t)
          (λ a e h.
            target_none-NotFrom a.slug after
              (target-redirect-none aliases a.slug e (NotFrom-target a.slug aliases h)))
          (All-delete_where (λ a. All (NotFrom a.slug) aliases) _ aliases flat))
        (to_t, tt)

  -- After the merge of `s` into another project `t`, whose slugs are not empty, where `s` is no alias:
  -- `t` is its own name, what led to `s` leads to `t`, and every other name leads where it led.
  pub settle-redirect :
      (aliases : List ProjectAlias) (name : String)
      → (s == "") ≡ false
      → (t == "") ≡ false
      → target aliases s ≡ none
      → settle (redirect aliases s t) name
        ≡ (if name == t then t else if settle aliases name == s then t else settle aliases name)
  unfolding settle
  settle-redirect aliases name full_s full_t h = elim (Bool-cases (name == t)) [
    | inl e ↦ rw ((eq_iff name t).0 e, target-redirect_target s t apart aliases, eq_refl t) refl
    | inr e ↦ elim (Bool-cases (name == s)) [
      | inl f ↦
          rw
            (
              (eq_iff name s).0 f,
              target-redirect_source s t apart aliases,
              h,
              apart,
              eq_refl s,
              full_t,
            )
            refl
      | inr f ↦
          rw (target-redirect_other s t apart name f e aliases, e)
            (settled_name (target aliases name) f)
    ]
  ]
    where
      settled_name :
          (o : Option String)
          → (name == s) ≡ false
          → or_text (Option.map (moved_by s t) o) name
            ≡ (if or_text o name == s then t else or_text o name)
      settled_name none f = rw f refl
      settled_name (some v) f =
          ground (arith, f, full_s, full_t, eq_iff v s, eq_iff v "", eq_iff s "")

-- A merge, or the deletion of a project.
pub data AliasStep : List ProjectAlias → List ProjectAlias → Type 0 where
  merged :
      {aliases : List ProjectAlias} (s t : String)
      → (s == t) ≡ false
      → (t == "") ≡ false
      → AliasStep aliases (redirect aliases s t)
  deleted : {aliases : List ProjectAlias} (slug : String) → AliasStep aliases (forget aliases slug)

pub data AliasRun : List ProjectAlias → List ProjectAlias → Type 0 where
  rest : {aliases : List ProjectAlias} → AliasRun aliases aliases
  next :
      {aliases between after : List ProjectAlias}
      → AliasStep aliases between
      → AliasRun between after
      → AliasRun aliases after

All-inside :
    {P Q : ProjectAlias → Type 0}
    → ((a : ProjectAlias) → P a → Q a)
    → (xs : List ProjectAlias) → All P xs
    → All Q xs
All-inside f [] all = tt
All-inside f (x ∷ xs) all = (f x all.0, All-inside f xs all.1)

pub AliasStep-IsFlat :
    {aliases after : List ProjectAlias} → AliasStep aliases after → IsFlat aliases → IsFlat after
unfolding forget
AliasStep-IsFlat {aliases} (merged s t apart full) flat = redirect-IsFlat s t apart aliases flat
AliasStep-IsFlat {aliases} (deleted slug) flat =
    All-delete_where _ (λ a. a.slug == slug) aliases
      (All-inside (λ a h. All-delete_where (NotFrom a.slug) (λ b. b.slug == slug) aliases h) aliases
        flat)

pub AliasRun-IsFlat :
    {aliases after : List ProjectAlias} → AliasRun aliases after → IsFlat aliases → IsFlat after
AliasRun-IsFlat rest flat = flat
AliasRun-IsFlat (next s r) flat = AliasRun-IsFlat r (AliasStep-IsFlat s flat)

pub target-flat :
    (aliases : List ProjectAlias) (name v : String)
    → IsFlat aliases
    → target aliases name ≡ some v
    → target aliases v ≡ none
unfolding target
target-flat aliases name v flat e = elim (Option-cases (first (λ a. a.source == name) aliases)) [
  | inl f ↦ absurd (cc (e, f))
  | inr (a, f) ↦
      let slug : a.slug ≡ v = ground (arith, e, f) in
      NotFrom-target v aliases (
        subst (λ w. All (NotFrom w) aliases) slug
          (All-first (λ a. All (NotFrom a.slug) aliases) (λ a. a.source == name) aliases flat f))
]
