-- ===== src/Sweeps/Pairs/Owned.antt =====
-- Which projects own a folder: the first loop of `pairs_worth_judging` of backend/services/background.py.
use mathlib.Core.List.Memᴰ
use knowledgebase_storage.Common.{
  String, ◌≡◌, refl, sym, ap, ◌∙◌, subst, inl, inr, true, false, Option, some, List, [], ◌∷◌, ◌++◌,
  Memᴰ, arith, ◌==◌, eq_iff, eq_refl, Bool-cases, contains,
}
use knowledgebase_storage.Common.Dict.{lookup, lookup-insert}
use knowledgebase_storage.Entries.{EntrySource, ProjectEntry}
use knowledgebase_storage.Sweeps.Pairs.{add_once, or_no_slugs, Owners, own, own_each, owners_of}

-- the folder is owned by the project
unfoldable pub Owns : String → String → Owners → Type 0
unfolding lookup
Owns path slug owners =
    (held : List String) × (lookup path owners ≡ some held) × (contains held slug ≡ true)

pub contains-append :
    (xs ys : List String) (s : String) → contains xs s ≡ true → contains (xs ++ ys) s ≡ true
contains-append [] ys s h = absurd (cc)
contains-append (x ∷ xs) ys s h = ground (arith, contains-append xs ys s)

pub contains-append_right :
    (xs ys : List String) (s : String) → contains ys s ≡ true → contains (xs ++ ys) s ≡ true
contains-append_right [] ys s h = h
contains-append_right (x ∷ xs) ys s h = ground (arith, contains-append_right xs ys s h)

add_once-contains :
    (slug s : String) (held : List String)
    → contains held s ≡ true
    → contains (add_once slug held) s ≡ true
unfolding add_once
add_once-contains slug s held h = elim (Bool-cases (contains held slug)) [
  | inl e ↦ rw e h
  | inr e ↦ rw e (contains-append held (slug ∷ []) s h)
]

add_once_self : (slug : String) (held : List String) → contains (add_once slug held) slug ≡ true
unfolding add_once
add_once_self slug held = elim (Bool-cases (contains held slug)) [
  | inl e ↦ rw e e
  | inr e ↦ rw e (contains-append_right held (slug ∷ []) slug (rw (eq_refl slug) refl))
]

own-Owns_self : (path slug : String) (owners : Owners) → Owns path slug (own path slug owners)
unfolding own Owns
own-Owns_self path slug owners =
    let held = or_no_slugs (lookup path owners) in
    (
      add_once slug held,
      lookup-insert path path (add_once slug held) owners ∙ rw (eq_refl path) refl,
      add_once_self slug held,
    )

own-Owns :
    (path slug p s : String) (owners : Owners) → Owns p s owners → Owns p s (own path slug owners)
unfolding own Owns
own-Owns path slug p s owners (held, found, has) =
    let grown = add_once slug (or_no_slugs (lookup path owners)) in
    elim (Bool-cases (path == p)) [
      | inl e ↦ (
        grown,
        lookup-insert p path grown owners ∙ rw e refl,
        add_once-contains slug s (or_no_slugs (lookup path owners)) (
            subst (λ (o : Option (List String)). contains (or_no_slugs o) s ≡ true)
              (sym (ap (λ (q : String). lookup q owners) ((eq_iff path p).0 e) ∙ found)) has),
      )
      | inr e ↦ (held, lookup-insert p path grown owners ∙ rw e found, has)
    ]

own_each-Owns :
    (slug p s : String) (sources : List EntrySource) (owners : Owners)
    → Owns p s owners
    → Owns p s (own_each slug sources owners)
unfolding own_each
own_each-Owns slug p s [] owners h = h
own_each-Owns slug p s (r ∷ rs) owners h = elim (Bool-cases (r.path == "")) [
  | inl e ↦ rw e (own_each-Owns slug p s rs owners h)
  | inr e ↦
      rw e (own_each-Owns slug p s rs (own r.path slug owners) (own-Owns r.path slug p s owners h))
]

own_each-Owns_self :
    (slug : String) (source : EntrySource) (sources : List EntrySource) (owners : Owners)
    → Memᴰ source sources
    → (source.path == "") ≡ false
    → Owns source.path slug (own_each slug sources owners)
unfolding own_each
own_each-Owns_self slug source [] owners m full = absurd (Memᴰ.not-nil m)
own_each-Owns_self slug source (r ∷ rs) owners m full = elim (Memᴰ.cases_cons m) [
  | inl e ↦
      let same : (r.path == "") ≡ false =
        subst (λ (w : EntrySource). (w.path == "") ≡ false) e full in
      rw same (
        own_each-Owns slug source.path slug rs (own r.path slug owners) (
          subst (λ (w : EntrySource). Owns w.path slug (own r.path slug owners)) (sym e)
            (own-Owns_self r.path slug owners)))
  | inr n ↦ own_each-Owns_self slug source rs _ n full
]

owners_of-Owns :
    (p s : String) (entries : List ProjectEntry) (owners : Owners)
    → Owns p s owners
    → Owns p s (owners_of entries owners)
unfolding owners_of
owners_of-Owns p s [] owners h = h
owners_of-Owns p s (e ∷ es) owners h =
    owners_of-Owns p s es (own_each e.slug e.sources owners)
      (own_each-Owns e.slug p s e.sources owners h)

-- each folder of an entry is owned by its project
pub owners_of-Owns_self :
    (entry : ProjectEntry) (source : EntrySource) (entries : List ProjectEntry) (owners : Owners)
    → Memᴰ entry entries
    → Memᴰ source entry.sources
    → (source.path == "") ≡ false
    → Owns source.path entry.slug (owners_of entries owners)
unfolding owners_of
owners_of-Owns_self entry source [] owners m n full = absurd (Memᴰ.not-nil m)
owners_of-Owns_self entry source (e ∷ es) owners m n full = elim (Memᴰ.cases_cons m) [
  | inl same ↦ owners_of-Owns source.path entry.slug es _ (
      subst (λ (w : ProjectEntry). Owns source.path entry.slug (own_each w.slug w.sources owners))
        same (own_each-Owns_self entry.slug source entry.sources owners n full))
  | inr k ↦ owners_of-Owns_self entry source es (own_each e.slug e.sources owners) k n full
]
