-- ===== src/Aliases/Merged.antt =====
-- A project that was merged into another: `redirect` and `forget` of backend/repositories/alias.py, and
-- `ProjectService.resolve` of backend/services/projects.py, over any merges and deletions.
use mathlib.Core.Option
use knowledgebase_storage.Common.{
  String, ◌≡◌, refl, sym, ap, ◌∙◌, subst, inl, inr, false, none, some, List, [], ◌∷◌, arith, ◌==◌,
  eq_iff, Bool-cases, Option-cases, holds_text, All, keep,
}
use knowledgebase_storage.Common.Table.{first, delete_where}
use knowledgebase_storage.Common.Table.Laws.{
  All-first, All-update_where_turn, All-delete_where, All-append,
}
use knowledgebase_storage.Aliases.{ProjectAlias, target, redirect, forget, settle}
use knowledgebase_storage.Aliases.Chains.{
  merged, deleted, rest, next, target-redirect_source, target-redirect_other, IsFlat, moved_by,
  AliasStep, AliasRun, AliasStep-IsFlat, AliasRun-IsFlat, target-flat,
}

-- No alias leads to the empty text.
abbrev pub IsFull : List ProjectAlias → Type 0
IsFull aliases = All (λ a. (a.slug == "") ≡ false) aliases

AliasStep-IsFull :
    {aliases after : List ProjectAlias} → AliasStep aliases after → IsFull aliases → IsFull after
unfolding forget redirect
AliasStep-IsFull {aliases} (merged s t apart full) all =
    All-append (λ a. (a.slug == "") ≡ false) _ _
      (All-update_where_turn (λ a. (a.slug == "") ≡ false) (λ a. (a.slug == "") ≡ false)
        (λ a. a.slug == s) (λ a. record a { slug = t }) _ (λ a e h. full) (λ a e h. h)
        (All-delete_where (λ a. (a.slug == "") ≡ false) _ aliases all))
      (full, tt)
AliasStep-IsFull {aliases} (deleted slug) all =
    All-delete_where (λ a. (a.slug == "") ≡ false) (λ a. a.slug == slug) aliases all

AliasRun-IsFull :
    {aliases after : List ProjectAlias} → AliasRun aliases after → IsFull aliases → IsFull after
AliasRun-IsFull rest full = full
AliasRun-IsFull (next s r) full = AliasRun-IsFull r (AliasStep-IsFull s full)

-- where a name leads is no alias
target-settle :
    (aliases : List ProjectAlias) (name : String)
    → IsFlat aliases
    → IsFull aliases
    → target aliases (settle aliases name) ≡ none
unfolding settle
target-settle aliases name flat full = elim (Option-cases (target aliases name)) [
  | inl e ↦ rw e e
  | inr (v, e) ↦ rw (e, full_slug v e) (target-flat aliases name v flat e)
]
  where
    full_slug : (v : String) → target aliases name ≡ some v → (v == "") ≡ false
    full_slug v e = elim (Option-cases (first (λ (a : ProjectAlias). a.source == name) aliases)) [
      | inl f ↦ absurd (let k : target aliases name ≡ none = unfold target in rw f refl in cc)
      | inr (a, f) ↦
          let k : target aliases name ≡ some a.slug = unfold target in rw f refl in
          let same : a.slug ≡ v = cc in
          subst (λ w. (w == "") ≡ false) same
            (All-first (λ a. (a.slug == "") ≡ false) (λ a. a.source == name) aliases full f)
    ]

-- the project that was merged away is named by no later merge's target, and where it leads to is not deleted
abbrev pub SparesStep : String → {a b : List ProjectAlias} → AliasStep a b → Type 0
SparesStep s (merged x t apart full) = (t == s) ≡ false
SparesStep s {a} (deleted slug) = holds_text (target a s) slug ≡ false

abbrev pub Spares : String → {a b : List ProjectAlias} → AliasRun a b → Type 0
Spares s rest = Unit
Spares s (next step run) = SparesStep s step × Spares s run

-- the alias of a name stays where what it leads to is not deleted
target-forget :
    (slug name w : String) (aliases : List ProjectAlias)
    → target aliases name ≡ some w
    → (w == slug) ≡ false
    → target (forget aliases slug) name ≡ some w
unfolding target forget first delete_where keep
target-forget slug name w [] e h = absurd (cc)
target-forget slug name w (a ∷ others) e h =
    ground (arith, target-forget slug name w others, e, h, eq_iff a.slug w, eq_iff a.slug slug)

kept_once :
    (s : String) {a b : List ProjectAlias}
    → (step : AliasStep a b) → SparesStep s step
    → (v : String) × (target a s ≡ some v)
    → (w : String) × (target b s ≡ some w)
kept_once s {a} (merged x t apart full) other (v, e) = elim (Bool-cases (s == x)) [
  | inl f ↦ (
    t,
    subst (λ n. target (redirect a x t) n ≡ some t) (sym ((eq_iff s x).0 f))
        (target-redirect_source x t apart a),
  )
  | inr f ↦ (
    moved_by x t v,
    target-redirect_other x t apart s f (ground (arith, other, eq_iff s t, eq_iff t s)) a
        ∙ ap (Option.map (moved_by x t)) e,
  )
]
kept_once s {a} (deleted slug) other (v, e) =
    (v, target-forget slug s v a e (ground (arith, other, e)))

kept_later :
    (s : String) {a b : List ProjectAlias}
    → (run : AliasRun a b) → Spares s run
    → (v : String) × (target a s ≡ some v)
    → (w : String) × (target b s ≡ some w)
kept_later s rest spares h = h
kept_later s (next step run) spares h = kept_later s run spares.1 (kept_once s step spares.0 h)

-- Whatever projects were merged into others and deleted before, from no aliases on: once `s` is merged into
-- another project, no name leads to `s`, whatever is merged and deleted later, until another project is
-- merged into `s` or the project is deleted that `s` leads to. The names of targets are not empty.
pub settle-merged :
    {before after : List ProjectAlias} (run : AliasRun [] before) (s t : String) (name : String)
    → (s == t) ≡ false
    → (t == "") ≡ false
    → (later : AliasRun (redirect before s t) after) → Spares s later
    → (settle after name == s) ≡ false
settle-merged {before} {after} run s t name apart full later spares =
    let merge : AliasStep before (redirect before s t) = merged s t apart full in
    let flat = AliasRun-IsFlat later (AliasStep-IsFlat merge (AliasRun-IsFlat run tt)) in
    let full_after = AliasRun-IsFull later (AliasStep-IsFull merge (AliasRun-IsFull run tt)) in
    let (w, held) = kept_later s later spares (t, target-redirect_source s t apart before) in
    elim (Bool-cases (settle after name == s)) [
      | inl e ↦
          let same : settle after name ≡ s = (eq_iff (settle after name) s).0 e in
          let gone : target after s ≡ none =
            subst (λ n. target after n ≡ none) same (target-settle after name flat full_after) in
          absurd (let no : none ≡ some w = sym gone ∙ held in cc)
      | inr e ↦ e
    ]
