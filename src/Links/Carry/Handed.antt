-- ===== src/Links/Carry/Handed.antt =====
-- `carry_links` of backend/services/projects.py: no link stays with the project that is merged away, and
-- each project that it was linked to is linked to the other one.
use knowledgebase_storage.Common.{
  String, ◌≡◌, sym, subst, ◌≢◌, inl, inr, true, false, ◌&&◌, List, [], ◌∷◌, eqb, Bool-cases, All,
  keep,
}
use knowledgebase_storage.Common.Table.Laws.{All-get, All-members, All-put}
use knowledgebase_storage.Common.Table.Members.{
  mem-put_self, mem-put_other, mem-keep, mem-keep_back,
}
use knowledgebase_storage.Links.{
  ProjectLink, related, is_part_of, joins, touches, around, would_cycle, save_link,
}
use knowledgebase_storage.Links.Table.{tidy_pair}
use knowledgebase_storage.Links.Hierarchy.{IsHierarchy}
use knowledgebase_storage.Links.Service.{other_of}
use knowledgebase_storage.Links.Carry.{carry_each, weaken_one, weaken_each, carry_links}
use knowledgebase_storage.Links.Carry.Weaken.{waits, IsWeakened, weaken_one-IsWeakened}
use knowledgebase_storage.Links.Carry.Moves.{
  begun-IsCarried, carry_each-IsCarried, mem-waits, carried-IsWeakened, carry_links-IsHierarchy,
}
use knowledgebase_storage.Links.Carry.Joined.{Joined, Leaves, handed_over}

-- the second loop writes a row's kind only
module _ (rest links : List ProjectLink) (l : ProjectLink) (w : IsWeakened (l ∷ rest) links) where
  gone-weaken_one :
      (source : String)
      → All (λ m. touches source m ≡ false) links
      → All (λ m. touches source m ≡ false) (weaken_one l links)
  unfolding weaken_one save_link
  gone-weaken_one source gone =
      elim (Bool-cases (is_part_of l.kind && would_cycle links l.source l.target)) [
        | inl e ↦ rw e (
            All-put (λ m. touches source m ≡ false) (λ (a b : ProjectLink). eqb a.id b.id)
              (record l { kind = related }) links
              (All-get (λ m. touches source m ≡ false) links l gone w.rows.0) gone)
        | inr e ↦ rw e gone
      ]

  Joined-weaken_one : (a b : String) → Joined a b links → Joined a b (weaken_one l links)
  unfolding weaken_one save_link
  Joined-weaken_one a b (m, n, j) =
      elim (Bool-cases (is_part_of l.kind && would_cycle links l.source l.target)) [
        | inl e ↦ rw e (elim (tidy_pair links l m w.tidy w.rows.0 n) [
          | inl f ↦ (
            record l { kind = related },
            mem-put_self (λ (a b : ProjectLink). eqb a.id b.id) (record l { kind = related }) links,
            subst (λ (k : ProjectLink). joins a b (record k { kind = related }) ≡ true) (sym f) j,
          )
          | inr (i, _) ↦ (
            m,
            mem-put_other (λ (a b : ProjectLink). eqb a.id b.id) (record l { kind = related }) m
                links i n,
            j,
          )
        ])
        | inr e ↦ rw e (m, n, j)
      ]

gone-weaken_each :
    (source : String) (rest links : List ProjectLink)
    → IsWeakened rest links
    → All (λ m. touches source m ≡ false) links
    → All (λ m. touches source m ≡ false) (weaken_each rest links)
unfolding weaken_each
gone-weaken_each source [] links w gone = gone
gone-weaken_each source (l ∷ rest) links w gone =
    gone-weaken_each source rest (weaken_one l links) (weaken_one-IsWeakened l rest links w)
      (gone-weaken_one rest links l w source gone)

Joined-weaken_each :
    (a b : String) (rest links : List ProjectLink)
    → IsWeakened rest links
    → Joined a b links
    → Joined a b (weaken_each rest links)
unfolding weaken_each
Joined-weaken_each a b [] links w j = j
Joined-weaken_each a b (l ∷ rest) links w j =
    Joined-weaken_each a b rest (weaken_one l links) (weaken_one-IsWeakened l rest links w)
      (Joined-weaken_one rest links l w a b j)

-- After the links of `source` are carried to another project, from links that are a hierarchy and none of
-- which joins `source` to itself: the links are a hierarchy again, no link touches `source`, and every
-- project other than `target` that a link joined to `source` is joined to `target`.
pub carry_links_lem :
    (source target : String) (links : List ProjectLink)
    → source ≢ target
    → IsHierarchy links
    → All (λ l. joins source source l ≡ false) links
    → IsHierarchy (carry_links source target links)
      × All (λ l. touches source l ≡ false) (carry_links source target links)
      × All
          (λ l.
            touches source l ≡ true
            → other_of source l ≢ target
            → Joined target (other_of source l) (carry_links source target links))
          links
unfolding carry_links around
carry_links_lem source target links differ h plain =
    let rows = around links source in
    let carried = carry_each source target rows links in
    let begun = begun-IsCarried source target links h.tidy in
    let c = carry_each-IsCarried source target links rows links begun in
    let w = carried-IsWeakened source target links carried h.acyclic c in
    let (gone, joined) = handed_over source target differ links rows links begun leaving (
      All-members (λ m. touches source m ≡ true → waits rows m ≡ true) links
        (λ m n t. mem-waits rows m (mem-keep (touches source) m links n t))) in
    (
      carry_links-IsHierarchy source target links h,
      gone-weaken_each source (around carried target) carried w gone,
      All-members
          (λ l.
            touches source l ≡ true
            → other_of source l ≢ target
            → Joined target (other_of source l) (weaken_each (around carried target) carried))
          links
          (λ l n t ne.
            Joined-weaken_each target (other_of source l) (around carried target) carried w (
              All-get (λ k. other_of source k ≢ target → Joined target (other_of source k) carried)
                rows l joined (mem-keep (touches source) l links n t) ne)),
    )
  where
    leaving : All (Leaves source) (keep (touches source) links)
    leaving = All-members (Leaves source) (keep (touches source) links) (λ m n.
        let (k, t) = mem-keep_back (touches source) m links n in
        (t, All-get (λ l. joins source source l ≡ false) links m plain k))
