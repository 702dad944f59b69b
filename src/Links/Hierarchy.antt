-- ===== src/Links/Hierarchy.antt =====
-- The part_of links of a table, and what saving one row does to them: backend/services/links.py.
use mathlib.Core.List.Memᴰ
use mathlib.Core.Path.{ap₂}
use knowledgebase_storage.Links.Service.{existing_or}
use knowledgebase_storage.Common.{
  Option-cases, String, ◌≡◌, refl, sym, ap, ◌∙◌, subst, inl, inr, Bool, true, false, not, ◌&&◌,
  some, List, [], ◌∷◌, Memᴰ, arith, eq_iff, eqb, Bool-cases, All,
}
use knowledgebase_storage.Links.{
  ProjectLink, is_part_of, Edge, joins, counts, collect, upward_edges, find, save_link,
}
use knowledgebase_storage.Links.Graph.{Up, Includes, Acyclic, Acyclic-Includes, Acyclic-cons}
use knowledgebase_storage.Links.Pairs.{IsTidy, Kept}
use knowledgebase_storage.Links.Table.{Saved, save_link-found, save_link-fresh}

-- The link says that one project is part of another.
abbrev pub is_edge : ProjectLink → Bool
is_edge l = is_part_of l.kind && not l.unrelated

-- At most one link joins two projects, and no project is part of itself through part_of links.
pub record IsHierarchy (links : List ProjectLink) : Type 0 where
  pub tidy : IsTidy links
  pub acyclic : Acyclic (collect is_edge links)

-- An edge comes from a link that passes the test.
pub mem-collect :
    (test : ProjectLink → Bool) (links : List ProjectLink) (l : ProjectLink)
    → Memᴰ l links
    → test l ≡ true
    → Memᴰ (l.source, l.target) (collect test links)
unfolding collect
mem-collect test [] l m h = absurd (Memᴰ.not-nil m)
mem-collect test (k ∷ ks) l m h = elim (Memᴰ.cases_cons m) [
  | inl e ↦
      rw ((ap test (sym e)) ∙ h) (Memᴰ.head (ap (λ (n : ProjectLink). (n.source, n.target)) e))
  | inr n ↦ elim (Bool-cases (test k)) [
    | inl t ↦ rw t (Memᴰ.tail (mem-collect test ks l n h))
    | inr f ↦ rw f (mem-collect test ks l n h)
  ]
]

-- Where each row of one table, if it passes, has its edge in a list, the list includes the table's edges.
pub collect-Includes :
    (test : ProjectLink → Bool) (links : List ProjectLink) (es : List Edge)
    → All (λ l. test l ≡ true → Memᴰ (l.source, l.target) es) links
    → Includes (collect test links) es
unfolding collect
collect-Includes test [] es all x y m = absurd (Memᴰ.not-nil m)
collect-Includes test (l ∷ ls) es all x y m = elim (Bool-cases (test l)) [
  | inl t ↦
      let n : Memᴰ (x, y) ((l.source, l.target) ∷ collect test ls) = rw (t, collect) at m in
      elim (Memᴰ.cases_cons n) [
        | inl e ↦ subst (λ f. Memᴰ f es) (sym e) (all.0 t)
        | inr k ↦ collect-Includes test ls es all.1 x y k
      ]
  | inr f ↦
      let n : Memᴰ (x, y) (collect test ls) = rw (f, collect) at m in
      collect-Includes test ls es all.1 x y n
]

pub All-of_Memᴰ :
    {P : ProjectLink → Type 0} (links : List ProjectLink)
    → ((l : ProjectLink) → Memᴰ l links → P l)
    → All P links
All-of_Memᴰ [] f = tt
All-of_Memᴰ (l ∷ ls) f = (f l (Memᴰ.head refl), All-of_Memᴰ ls (λ m n. f m (Memᴰ.tail n)))

pub upward_edges-Includes :
    (s t : String) (links : List ProjectLink)
    → Includes (upward_edges s t links) (collect is_edge links)
unfolding upward_edges
upward_edges-Includes s t links = collect-Includes (counts s t) links (collect is_edge links) (
    All-of_Memᴰ {P = λ l. counts s t l ≡ true → Memᴰ (l.source, l.target) (collect is_edge links)}
      links (λ l m h. mem-collect is_edge links l m (ground arith)))

All-turn :
    {P Q : ProjectLink → Type 0}
    → ((m : ProjectLink) → P m → Q m)
    → (ls : List ProjectLink) → All P ls
    → All Q ls
All-turn f [] all = tt
All-turn f (l ∷ ls) all = (f l all.0, All-turn f ls all.1)

module _ (s t : String) (x : ProjectLink) (links : List ProjectLink) (from_s : x.source ≡ s)
    (to_t : x.target ≡ t) where
  kept-edge :
      (m : ProjectLink)
      → Kept s t x links m
      → is_edge m ≡ true
      → Memᴰ (m.source, m.target) ((s, t) ∷ upward_edges s t links)
  unfolding upward_edges
  kept-edge m (inl e) h = Memᴰ.head (
      ap₂ (λ (a b : String). (a, b)) (ap (λ (n : ProjectLink). n.source) e ∙ from_s)
        (ap (λ (n : ProjectLink). n.target) e ∙ to_t))
  kept-edge m (inr (n, j)) h = Memᴰ.tail (mem-collect (counts s t) links m n (ground arith))

  kept-no_edge :
      is_edge x ≡ false
      → (m : ProjectLink) → Kept s t x links m
      → is_edge m ≡ true
      → Memᴰ (m.source, m.target) (collect is_edge links)
  kept-no_edge none_there m (inl e) h = absurd (cc (none_there, ap is_edge e, h))
  kept-no_edge none_there m (inr (n, j)) h = mem-collect is_edge links m n h

  -- the part_of links stay acyclic where the row that is saved is no edge that closes a cycle
  Kept-Acyclic :
      (ls : List ProjectLink)
      → Acyclic (collect is_edge links)
      → (is_edge x ≡ true → ¬ Up (upward_edges s t links) t s)
      → All (Kept s t x links) ls
      → Acyclic (collect is_edge ls)
  Kept-Acyclic ls free opens all = elim (Bool-cases (is_edge x)) [
    | inl e ↦
        Acyclic-Includes (collect is_edge ls) ((s, t) ∷ upward_edges s t links)
          (collect-Includes is_edge ls ((s, t) ∷ upward_edges s t links)
            (All-turn kept-edge ls all))
          (Acyclic-cons (upward_edges s t links) s t
            (Acyclic-Includes (upward_edges s t links) (collect is_edge links)
              (upward_edges-Includes s t links) free)
            (opens e))
    | inr e ↦
        Acyclic-Includes (collect is_edge ls) (collect is_edge links)
          (collect-Includes is_edge ls (collect is_edge links) (All-turn (kept-no_edge e) ls all))
          free
  ]

  joined : joins s t x ≡ true
  joined = ground (arith, eq_iff x.source s, eq_iff x.target t)

  Saved-IsHierarchy :
      IsHierarchy links
      → (is_edge x ≡ true → ¬ Up (upward_edges s t links) t s)
      → Saved s t x joined links
      → IsHierarchy (save_link x links)
  Saved-IsHierarchy h opens saved = record {
    tidy = saved.1;
    acyclic = Kept-Acyclic (save_link x links) h.acyclic opens saved.0;
  }

  -- a row that takes the place of the one between its projects
  pub resave_link-IsHierarchy :
      (e : ProjectLink)
      → IsHierarchy links
      → find links s t ≡ some e
      → eqb x.id e.id ≡ true
      → (is_edge x ≡ true → ¬ Up (upward_edges s t links) t s)
      → IsHierarchy (save_link x links)
  resave_link-IsHierarchy e h f i opens =
      Saved-IsHierarchy h opens (save_link-found s t x joined links e h.tidy f i)

  -- a row that takes the place of the one between its projects, or a new identifier
  pub save_link-IsHierarchy :
      (fallback : ProjectLink)
      → IsHierarchy links
      → All (λ m. eqb m.id fallback.id ≡ false) links
      → eqb x.id (existing_or (find links s t) fallback).id ≡ true
      → (is_edge x ≡ true → ¬ Up (upward_edges s t links) t s)
      → IsHierarchy (save_link x links)
  unfolding existing_or
  save_link-IsHierarchy fallback h fresh i opens = elim (Option-cases (find links s t)) [
    | inl f ↦
        let k : eqb x.id fallback.id ≡ true = rw (f, existing_or) at i in
        Saved-IsHierarchy h opens (
          save_link-fresh s t x joined links h.tidy f
            (All-turn (λ m n. ground (arith, n, k)) links fresh))
    | inr (e, f) ↦ resave_link-IsHierarchy e h f (rw (f, existing_or) at i) opens
  ]
