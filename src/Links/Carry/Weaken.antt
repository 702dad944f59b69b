-- ===== src/Links/Carry/Weaken.antt =====
-- `carry_links` of backend/services/projects.py: the part_of links around the project that took the links
-- over are weakened one after the other where they close a cycle.
use mathlib.Core.List.Memᴰ
use knowledgebase_storage.Common.{
  ◌≡◌, refl, sym, ap, subst, inl, inr, Bool, true, false, not, ◌&&◌, ◌||◌, some, List, [], ◌∷◌,
  Memᴰ, arith, eq_iff, eq_refl, eqb, Bool-cases, All,
}
use knowledgebase_storage.Common.Table.{first}
use knowledgebase_storage.Common.Table.Laws.{All-get, All-members, All-turn}
use knowledgebase_storage.Common.Table.Members.{mem-put_other}
use knowledgebase_storage.Links.{
  ProjectLink, related, is_part_of, Edge, joins, collect, upward_edges, find, would_cycle,
  save_link,
}
use knowledgebase_storage.Links.Graph.{
  Up-Includes, Includes, Acyclic, Acyclic-Includes, Acyclic-cons,
}
use knowledgebase_storage.Links.Walk.{would_cycle_lem}
use knowledgebase_storage.Links.Pairs.{IsTidy, apart, Kept}
use knowledgebase_storage.Links.Table.{Saved, save_link-found, tidy_pair}
use knowledgebase_storage.Links.Hierarchy.{IsHierarchy, is_edge, mem-collect, collect-Includes}
use knowledgebase_storage.Links.Carry.{weaken_one, weaken_each}

-- the row of a tidy table is the one that joins its two projects
pub find_row :
    (links : List ProjectLink) (l : ProjectLink)
    → IsTidy links
    → Memᴰ l links
    → find links l.source l.target ≡ some l
unfolding find first
find_row [] l tidy m = absurd (Memᴰ.not-nil m)
find_row (k ∷ ks) l tidy m = elim (Memᴰ.cases_cons m) [
  | inl e ↦
      rw (subst (λ (c : ProjectLink). joins l.source l.target c ≡ true) e (joins_itself l))
        (ap some (sym e))
  | inr n ↦ elim (Bool-cases (joins l.source l.target k)) [
    | inl j ↦ absurd (cc (j, joins_parted k l (All-get (λ c. apart k c ≡ true) ks l tidy.0 n)))
    | inr j ↦ rw j (find_row ks l tidy.1 n)
  ]
]
  where
    joins_itself : (l : ProjectLink) → joins l.source l.target l ≡ true
    joins_itself l = rw (eq_refl l.source, eq_refl l.target) refl

    joins_parted : (k l : ProjectLink) → apart k l ≡ true → joins l.source l.target k ≡ false
    joins_parted k l a = ground (
      arith,
      a,
      eq_iff k.source l.source,
      eq_iff k.target l.target,
      eq_iff k.source l.target,
      eq_iff k.target l.source,
      eq_iff l.source k.source,
      eq_iff l.target k.target,
      eq_iff l.source k.target,
      eq_iff l.target k.source,
    )

-- One of the rows has this row's identifier.
abbrev pub waits : List ProjectLink → ProjectLink → Bool
waits [] m = false
waits (l ∷ ls) m = eqb l.id m.id || waits ls m

-- A part_of link that none of the rows stands for.
abbrev pub is_free : List ProjectLink → ProjectLink → Bool
is_free rest m = is_edge m && not (waits rest m)

-- Rows of the table still to be looked at: the table is tidy, and what they do not stand for has no cycle.
pub record IsWeakened (rest links : List ProjectLink) : Type 0 where
  pub tidy : IsTidy links
  pub rows_tidy : IsTidy rest
  pub rows : All (λ l. Memᴰ l links) rest
  pub free : Acyclic (collect (is_free rest) links)

module _ (l : ProjectLink) (rest links : List ProjectLink) (w : IsWeakened (l ∷ rest) links) where
  here_now : Memᴰ l links
  here_now = w.rows.0

  -- a row of the table with the identifier of `l` is `l`
  is_row : (m : ProjectLink) → Memᴰ m links → eqb l.id m.id ≡ true → l ≡ m
  is_row m n i = elim (tidy_pair links l m w.tidy here_now n) [
    | inl e ↦ e
    | inr (j, _) ↦ absurd (cc (i, j))
  ]

  -- and any other row joins other projects
  other_row :
      (m : ProjectLink) → Memᴰ m links → eqb l.id m.id ≡ false → joins l.source l.target m ≡ false
  other_row m n i = elim (tidy_pair links l m w.tidy here_now n) [
    | inl e ↦ absurd (let k : eqb l.id l.id ≡ false = rw (← e) at i in ground (arith, k))
    | inr (_, j) ↦ j
  ]

  es : List Edge
  es = collect (is_free (l ∷ rest)) links

  es-upward : Includes es (upward_edges l.source l.target links)
  unfolding es upward_edges
  es-upward = collect-Includes (is_free (l ∷ rest)) links (upward_edges l.source l.target links) (
      All-members
        (λ m.
          is_free (l ∷ rest) m ≡ true
          → Memᴰ (m.source, m.target) (upward_edges l.source l.target links))
        links
        (λ m n h. mem-collect _ links m n (ground (arith, h, other_row m n (ground (arith, h))))))

  -- the table as it is, where `l` closes no cycle
  kept_free :
      (is_part_of l.kind && would_cycle links l.source l.target) ≡ false
      → Acyclic (collect (is_free rest) links)
  unfolding es
  kept_free e = elim (Bool-cases (is_edge l)) [
    | inl k ↦
        Acyclic-Includes (collect (is_free rest) links) ((l.source, l.target) ∷ es)
          (collect-Includes (is_free rest) links ((l.source, l.target) ∷ es) (
            All-members
              (λ m. is_free rest m ≡ true → Memᴰ (m.source, m.target) ((l.source, l.target) ∷ es))
              links
              (λ m n h. elim (Bool-cases (eqb l.id m.id)) [
                | inl i ↦
                    Memᴰ.head (ap (λ (c : ProjectLink). (c.source, c.target)) (sym (is_row m n i)))
                | inr i ↦
                    Memᴰ.tail (mem-collect (is_free (l ∷ rest)) links m n (ground (arith, h, i)))
              ])))
          (Acyclic-cons es l.source l.target w.free (λ p.
            (would_cycle_lem links l.source l.target).2 (ground (arith, e, k))
              (Up-Includes es (upward_edges l.source l.target links) es-upward p)))
    | inr k ↦
        Acyclic-Includes (collect (is_free rest) links) es
          (collect-Includes (is_free rest) links es (
            All-members (λ m. is_free rest m ≡ true → Memᴰ (m.source, m.target) es) links
              (λ m n h. elim (Bool-cases (eqb l.id m.id)) [
                | inl i ↦ absurd (cc (k, ap is_edge (is_row m n i), edge_of m h))
                | inr i ↦ mem-collect (is_free (l ∷ rest)) links m n (ground (arith, h, i))
              ])))
          w.free
  ]
    where
      edge_of : (m : ProjectLink) → is_free rest m ≡ true → is_edge m ≡ true
      edge_of m h = ground (arith, h)

  -- the row of `l` is written as no edge
  abbrev weaker : ProjectLink
  weaker = record l { kind = related }

  weaker_joins : joins l.source l.target weaker ≡ true
  weaker_joins = rw (eq_refl l.source, eq_refl l.target) refl

  weaker-Saved : Saved l.source l.target weaker weaker_joins links
  weaker-Saved =
      save_link-found l.source l.target weaker weaker_joins links l w.tidy
        (find_row links l w.tidy here_now) (ground arith)

  weaker_free : Acyclic (collect (is_free rest) (save_link weaker links))
  unfolding es
  weaker_free =
      Acyclic-Includes (collect (is_free rest) (save_link weaker links)) es
        (collect-Includes (is_free rest) (save_link weaker links) es (
          All-turn (Kept l.source l.target weaker links)
            (λ m. is_free rest m ≡ true → Memᴰ (m.source, m.target) es) free_row
            (save_link weaker links) weaker-Saved.0))
        w.free
    where
      free_row :
          (m : ProjectLink)
          → Kept l.source l.target weaker links m
          → is_free rest m ≡ true
          → Memᴰ (m.source, m.target) es
      free_row m (inl e) h = absurd (cc (ap is_edge e, edge_of m h))
        where
          edge_of : (m : ProjectLink) → is_free rest m ≡ true → is_edge m ≡ true
          edge_of m h = ground (arith, h)
      free_row m (inr (n, j)) h = elim (Bool-cases (eqb l.id m.id)) [
        | inl i ↦ absurd (cc (joined m (is_row m n i), j))
        | inr i ↦ mem-collect (is_free (l ∷ rest)) links m n (ground (arith, h, i))
      ]
        where
          joined : (m : ProjectLink) → l ≡ m → joins l.source l.target m ≡ true
          joined m e =
              subst (λ (c : ProjectLink). joins l.source l.target c ≡ true) e
                (rw (eq_refl l.source, eq_refl l.target) refl)

  -- the rows to come are still in the table
  rows_kept : All (λ k. Memᴰ k (save_link weaker links)) rest
  unfolding save_link
  rows_kept =
      All-members (λ k. Memᴰ k (save_link weaker links)) rest
        (λ k n.
          mem-put_other (λ (a b : ProjectLink). eqb a.id b.id) weaker k links
            (ids_differ k (All-get (λ m. apart l m ≡ true) rest k w.rows_tidy.0 n))
            (All-get (λ m. Memᴰ m links) rest k w.rows.1 n))
    where
      ids_differ : (k : ProjectLink) → apart l k ≡ true → eqb l.id k.id ≡ false
      ids_differ k a = ground (arith, a)

  pub weaken_one-IsWeakened : IsWeakened rest (weaken_one l links)
  unfolding weaken_one
  weaken_one-IsWeakened =
      elim (Bool-cases (is_part_of l.kind && would_cycle links l.source l.target)) [
        | inl e ↦ rw e (record {
          tidy = weaker-Saved.1;
          rows_tidy = w.rows_tidy.1;
          rows = rows_kept;
          free = weaker_free;
        })
        | inr e ↦ rw e (record {
          tidy = w.tidy;
          rows_tidy = w.rows_tidy.1;
          rows = w.rows.1;
          free = kept_free e;
        })
      ]

pub weaken_each-IsHierarchy :
    (rest links : List ProjectLink) → IsWeakened rest links → IsHierarchy (weaken_each rest links)
unfolding weaken_each
weaken_each-IsHierarchy [] links w = record {
  tidy = w.tidy;
  acyclic =
      Acyclic-Includes (collect is_edge links) (collect (is_free []) links)
        (collect-Includes is_edge links (collect (is_free []) links) (
          All-members
            (λ m. is_edge m ≡ true → Memᴰ (m.source, m.target) (collect (is_free []) links)) links
            (λ m n h. mem-collect (is_free []) links m n (ground (arith, h)))))
        w.free;
}
weaken_each-IsHierarchy (l ∷ rest) links w =
    weaken_each-IsHierarchy rest (weaken_one l links) (weaken_one-IsWeakened l rest links w)
