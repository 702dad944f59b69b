-- ===== src/Links/Carry/Moves.antt =====
-- `carry_links` of backend/services/projects.py: the rows of the project that is merged away are moved to
-- the other one, and the links are a hierarchy afterwards.
use mathlib.Core.List.Memᴰ
use knowledgebase_storage.Common.{
  String, ◌≡◌, refl, ap, inl, inr, true, false, not, ◌||◌, none, List, [], ◌∷◌, Memᴰ, arith, ◌==◌,
  eq_refl, eqb, Bool-cases, is_some, All, keep,
}
use knowledgebase_storage.Common.Table.{delete_where}
use knowledgebase_storage.Common.Table.Laws.{All-get, All-members, All-delete_where, All-turn}
use knowledgebase_storage.Common.Table.Members.{mem-put_other, mem-keep, mem-keep_back}
use knowledgebase_storage.Links.{ProjectLink, joins, touches, around, collect, find, save_link}
use knowledgebase_storage.Links.Graph.{Acyclic, Acyclic-Includes}
use knowledgebase_storage.Links.Pairs.{IsTidy, apart, Kept}
use knowledgebase_storage.Links.Table.{Saved, save_link-moved}
use knowledgebase_storage.Links.Hierarchy.{IsHierarchy, is_edge, mem-collect, collect-Includes}
use knowledgebase_storage.Links.Dropped.{keep-IsTidy, delete_where-IsTidy}
use knowledgebase_storage.Links.Service.{other_of}
use knowledgebase_storage.Links.Carry.{moved_link, carry_one, carry_each, carry_links}
use knowledgebase_storage.Links.Carry.Weaken.{waits, is_free, IsWeakened, weaken_each-IsHierarchy}

pub moved_joins :
    (source target : String) (l : ProjectLink)
    → joins target (other_of source l) (moved_link source target l) ≡ true
unfolding moved_link
moved_joins source target l = elim (Bool-cases (l.source == source)) [
  | inl e ↦ rw (e, eq_refl target, eq_refl l.target) refl
  | inr e ↦ rw (e, eq_refl target, eq_refl l.source) (ground arith)
]

pub moved_id : (source target : String) (l : ProjectLink) → (moved_link source target l).id ≡ l.id
unfolding moved_link
moved_id source target l = ground arith

pub mem-waits : (ls : List ProjectLink) (m : ProjectLink) → Memᴰ m ls → waits ls m ≡ true
mem-waits [] m n = absurd (Memᴰ.not-nil n)
mem-waits (l ∷ ls) m n = elim (Memᴰ.cases_cons n) [
  | inl e ↦ let i : eqb l.id m.id ≡ true = rw e (ground arith) in rw i
  | inr k ↦ ground (arith, mem-waits ls m k)
]

-- Rows of the first query still to be moved: the table is tidy, and a row that does not touch the
-- target was there before.
pub record IsCarried (target : String) (before rest links : List ProjectLink) : Type 0 where
  pub tidy : IsTidy links
  pub rows_tidy : IsTidy rest
  pub rows : All (λ l. Memᴰ l links) rest
  pub far : All (λ m. touches target m ≡ false → Memᴰ m before) links

module _ (source target : String) (before : List ProjectLink) where
  module _ (l : ProjectLink) (rest links : List ProjectLink)
      (c : IsCarried target before (l ∷ rest) links) where
    abbrev pub other : String
    other = other_of source l

    abbrev pub moved : ProjectLink
    moved = moved_link source target l

    -- a row to come has another identifier
    pub ids_differ : (k : ProjectLink) → Memᴰ k rest → eqb l.id k.id ≡ false
    ids_differ k n =
        let a = All-get (λ m. apart l m ≡ true) rest k c.rows_tidy.0 n in ground (arith, a)

    dropped-IsCarried : IsCarried target before rest (delete_where (λ m. eqb m.id l.id) links)
    unfolding delete_where
    dropped-IsCarried = record {
      tidy = delete_where-IsTidy (λ m. eqb m.id l.id) links c.tidy;
      rows_tidy = c.rows_tidy.1;
      rows =
          All-members (λ k. Memᴰ k (delete_where (λ m. eqb m.id l.id) links)) rest
            (λ k n.
              mem-keep (λ m. not (eqb m.id l.id)) k links
                (All-get (λ m. Memᴰ m links) rest k c.rows.1 n) (ground (arith, ids_differ k n)));
      far =
          All-delete_where (λ m. touches target m ≡ false → Memᴰ m before) (λ m. eqb m.id l.id)
            links c.far;
    }

    pub moved-Saved :
        find links target other ≡ none
        → Saved target other moved (moved_joins source target l) links
    moved-Saved none_there =
        save_link-moved target other moved (moved_joins source target l) links c.tidy none_there

    moved-IsCarried :
        find links target other ≡ none → IsCarried target before rest (save_link moved links)
    unfolding save_link
    moved-IsCarried none_there = record {
      tidy = (moved-Saved none_there).1;
      rows_tidy = c.rows_tidy.1;
      rows =
          All-members (λ k. Memᴰ k (save_link moved links)) rest
            (λ k n.
              mem-put_other (λ (a b : ProjectLink). eqb a.id b.id) moved k links
                (rw (moved_id source target l) (ids_differ k n))
                (All-get (λ m. Memᴰ m links) rest k c.rows.1 n));
      far =
          All-turn (Kept target other moved links) (λ m. touches target m ≡ false → Memᴰ m before)
            far_row (save_link moved links) (moved-Saved none_there).0;
    }
      where
        touched : (a b : String) (m : ProjectLink) → joins a b m ≡ true → touches a m ≡ true
        touched a b m j = ground (arith, j)

        far_row :
            (m : ProjectLink)
            → Kept target other moved links m
            → touches target m ≡ false
            → Memᴰ m before
        far_row m (inl e) t = absurd (
            cc (touched target other moved (moved_joins source target l), ap (touches target) e, t))
        far_row m (inr (n, j)) t =
            All-get (λ k. touches target k ≡ false → Memᴰ k before) links m c.far n t

    pub carry_one-IsCarried : IsCarried target before rest (carry_one source target l links)
    unfolding carry_one
    carry_one-IsCarried = elim (Bool-cases (other == target || is_some (find links target other))) [
      | inl e ↦ rw e dropped-IsCarried
      | inr e ↦ rw e (moved-IsCarried (ground (arith, e)))
    ]

  pub carry_each-IsCarried :
      (rest links : List ProjectLink)
      → IsCarried target before rest links
      → IsCarried target before [] (carry_each source target rest links)
  unfolding carry_each
  carry_each-IsCarried [] links c = c
  carry_each-IsCarried (l ∷ rest) links c =
      carry_each-IsCarried rest (carry_one source target l links)
        (carry_one-IsCarried l rest links c)

  around-rows :
      (project : String) (links : List ProjectLink) → All (λ l. Memᴰ l links) (around links project)
  unfolding around
  around-rows project links =
      All-members (λ l. Memᴰ l links) (around links project)
        (λ l n. (mem-keep_back (touches project) l links n).0)

  pub begun-IsCarried : IsTidy before → IsCarried target before (around before source) before
  unfolding around
  begun-IsCarried tidy = record {
    tidy = tidy;
    rows_tidy = keep-IsTidy (touches source) before tidy;
    rows = around-rows source before;
    far = All-members (λ m. touches target m ≡ false → Memᴰ m before) before (λ m n t. n);
  }

  pub carried-IsWeakened :
      (links : List ProjectLink)
      → Acyclic (collect is_edge before)
      → IsCarried target before [] links
      → IsWeakened (around links target) links
  unfolding around
  carried-IsWeakened links free c = record {
    tidy = c.tidy;
    rows_tidy = keep-IsTidy (touches target) links c.tidy;
    rows = around-rows target links;
    free =
        Acyclic-Includes (collect (is_free (around links target)) links) (collect is_edge before)
          (collect-Includes (is_free (around links target)) links (collect is_edge before) (
            All-members
              (λ m.
                is_free (around links target) m ≡ true
                → Memᴰ (m.source, m.target) (collect is_edge before))
              links
              (λ m n h.
                mem-collect is_edge before m
                  (All-get (λ k. touches target k ≡ false → Memᴰ k before) links m c.far n
                    (untouched m n h))
                  (ground (arith, h)))))
          free;
  }
    where
      untouched :
          (m : ProjectLink)
          → Memᴰ m links
          → is_free (keep (touches target) links) m ≡ true
          → touches target m ≡ false
      untouched m n h = elim (Bool-cases (touches target m)) [
        | inl t ↦ absurd (
            let w =
              mem-waits (keep (touches target) links) m (mem-keep (touches target) m links n t) in
            ground (arith, h, w))
        | inr t ↦ t
      ]

-- the links of a project that is merged into another, whichever two they are
pub carry_links-IsHierarchy :
    (source target : String) (links : List ProjectLink)
    → IsHierarchy links
    → IsHierarchy (carry_links source target links)
unfolding carry_links
carry_links-IsHierarchy source target links h =
    let carried = carry_each source target (around links source) links in
    weaken_each-IsHierarchy (around carried target) carried (
      carried-IsWeakened source target links carried h.acyclic (
        carry_each-IsCarried source target links (around links source) links
          (begun-IsCarried source target links h.tidy)))
