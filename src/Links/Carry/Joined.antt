-- ===== src/Links/Carry/Joined.antt =====
-- The first loop of `carry_links` of backend/services/projects.py: which projects a link joins afterwards.

use knowledgebase_storage.Common.{
  String, ◌≡◌, sym, ap, ◌≢◌, inl, inr, true, false, not, ◌||◌, none, List, [], ◌∷◌, Memᴰ, arith,
  ◌==◌, eq_iff, eq_refl, eqb, Bool-cases, Option-cases, is_some, All, keep,
}
use knowledgebase_storage.Common.Table.{first, delete_where}
use knowledgebase_storage.Common.Table.Laws.{
  All-get, All-members, All-first, first_passes, All-turn,
}
use knowledgebase_storage.Common.Table.Members.{
  mem-put_self, mem-put_other, mem-keep, mem-keep_back,
}
use knowledgebase_storage.Links.{ProjectLink, joins, touches, find, save_link}
use knowledgebase_storage.Links.Pairs.{Kept}
use knowledgebase_storage.Links.Table.{tidy_pair}
use knowledgebase_storage.Links.Service.{other_of}
use knowledgebase_storage.Links.Carry.{moved_link, carry_one, carry_each}
use knowledgebase_storage.Links.Carry.Weaken.{waits}
use knowledgebase_storage.Links.Carry.Moves.{
  moved_joins, moved_id, IsCarried, moved-Saved, carry_one-IsCarried,
}

-- Some link joins the two projects.
abbrev pub Joined : String → String → List ProjectLink → Type 0
Joined a b links = (m : ProjectLink) × Memᴰ m links × (joins a b m ≡ true)

-- A link of the project with another one.
abbrev pub Leaves : String → ProjectLink → Type 0
Leaves source l = (touches source l ≡ true) × (joins source source l ≡ false)

find-Joined :
    (links : List ProjectLink) (a b : String) → is_some (find links a b) ≡ true → Joined a b links
unfolding find
find-Joined links a b h = elim (Option-cases (first (joins a b) links)) [
  | inl e ↦ absurd (let k : false ≡ true = rw e at h in cc)
  | inr (m, e) ↦ (
    m,
    All-first (λ k. Memᴰ k links) (joins a b) links
        (All-members (λ k. Memᴰ k links) links (λ k n. n)) e,
    first_passes (joins a b) links e,
  )
]

module _ (source target : String) (differ : source ≢ target) (before : List ProjectLink) where
  other-ne : (l : ProjectLink) → Leaves source l → other_of source l ≢ source
  other-ne l h e =
      absurd (
        ground (arith, h.0, h.1, e, eq_iff l.source source, eq_iff l.target source, eq_refl source))

  -- a link that joins the target with a project other than the source is none of the source's
  not_left :
      (o : String) (m l : ProjectLink)
      → o ≢ source
      → joins target o m ≡ true
      → touches source l ≡ true
      → m ≢ l
  not_left o m l ne j t e = absurd (
      ground (
        arith,
        rw (← e) at t,
        j,
        ne,
        differ,
        eq_iff m.source source,
        eq_iff m.target source,
        eq_iff m.source target,
        eq_iff m.target target,
        eq_iff m.source o,
        eq_iff m.target o,
      ))

  moved-stays :
      (l : ProjectLink) → Leaves source l → touches source (moved_link source target l) ≡ false
  unfolding moved_link
  moved-stays l h = elim (Bool-cases (l.source == source)) [
    | inl e ↦ rw e (ground (arith, e, h.1, differ, eq_iff target source))
    | inr e ↦ rw e (ground (arith, e, differ, eq_iff target source))
  ]

  module _ (l : ProjectLink) (rest links : List ProjectLink)
      (c : IsCarried target before (l ∷ rest) links) (leaves : Leaves source l) where
    row_other : (m : ProjectLink) → Memᴰ m links → l ≢ m → eqb l.id m.id ≡ false
    row_other m n ne = elim (tidy_pair links l m c.tidy c.rows.0 n) [
      | inl e ↦ absurd (ne e)
      | inr (i, _) ↦ i
    ]

    -- what was joined to the target stays so
    Joined-carry_one :
        (o : String)
        → o ≢ source
        → Joined target o links
        → Joined target o (carry_one source target l links)
    unfolding carry_one delete_where save_link
    Joined-carry_one o ne (m, n, j) =
        let i = row_other m n (λ e. not_left o m l ne j leaves.0 (sym e)) in
        elim (Bool-cases
          (other_of source l == target || is_some (find links target (other_of source l)))) [
            | inl e ↦ rw e (m, mem-keep (λ k. not (eqb k.id l.id)) m links n (ground (arith, i)), j)
            | inr e ↦ rw e (
              m,
              mem-put_other (λ (a b : ProjectLink). eqb a.id b.id) (moved_link source target l) m
                  links (rw (moved_id source target l) i) n,
              j,
            )
          ]

    -- and the project that the link joined is joined to the target, if it is another one
    Joined-carried :
        other_of source l ≢ target
        → Joined target (other_of source l) (carry_one source target l links)
    Joined-carried ne = elim (Bool-cases (is_some (find links target (other_of source l)))) [
      | inl e ↦
          Joined-carry_one (other_of source l) (other-ne l leaves)
            (find-Joined links target (other_of source l) e)
      | inr e ↦ placed ne e
    ]
      where
        placed :
            other_of source l ≢ target
            → is_some (find links target (other_of source l)) ≡ false
            → Joined target (other_of source l) (carry_one source target l links)
        placed ne e = (
          moved_link source target l,
          unfold carry_one in
              unfold save_link in
              (rw (e, not_same)
                (mem-put_self (λ (a b : ProjectLink). eqb a.id b.id) (moved_link source target l)
                  links)),
          moved_joins source target l,
        )
          where
            not_same : (other_of source l == target) ≡ false
            not_same = ground (arith, ne, eq_iff (other_of source l) target)

    -- a row of the source that is left is a row to come
    left-carry_one :
        All (λ m. touches source m ≡ true → waits (l ∷ rest) m ≡ true) links
        → All (λ m. touches source m ≡ true → waits rest m ≡ true) (carry_one source target l links)
    unfolding carry_one delete_where
    left-carry_one left =
        let other = other_of source l in
        elim (Bool-cases (other == target || is_some (find links target other))) [
          | inl e ↦ rw e (
              All-members (λ m. touches source m ≡ true → waits rest m ≡ true)
                (keep (λ m. not (eqb m.id l.id)) links)
                (λ m n t.
                  let (k, i) = mem-keep_back (λ m. not (eqb m.id l.id)) m links n in
                  let w =
                    All-get (λ m. touches source m ≡ true → waits (l ∷ rest) m ≡ true) links m left
                      k t in
                  ground (arith, i, w)))
          | inr e ↦ rw e (moved_left (ground (arith, e)))
        ]
      where
        moved_left :
            find links target (other_of source l) ≡ none
            → All
                (λ m. touches source m ≡ true → waits rest m ≡ true)
                (save_link (moved_link source target l) links)
        moved_left none_there =
            let x = moved_link source target l in
            let (kept, tidy) = moved-Saved source target before l rest links c none_there in
            All-members (λ m. touches source m ≡ true → waits rest m ≡ true) (save_link x links)
              (λ m n t.
                elim (tidy_pair (save_link x links) x m tidy
                  (unfold save_link in
                    (mem-put_self (λ (a b : ProjectLink). eqb a.id b.id) x links))
                  n) [
                    | inl e ↦ absurd (cc (moved-stays l leaves, ap (touches source) e, t))
                    | inr (i, _) ↦
                        elim (All-get (Kept target (other_of source l) x links) (save_link x links)
                          m kept n) [
                            | inl e ↦ absurd (cc (moved-stays l leaves, ap (touches source) e, t))
                            | inr (k, _) ↦
                                let w =
                                  All-get (λ m. touches source m ≡ true → waits (l ∷ rest) m ≡ true)
                                    links m left k t in
                                let d : eqb l.id m.id ≡ false =
                                  rw (moved_id source target l) at i in
                                ground (arith, d, w)
                          ]
                  ])

  Joined-carry_each :
      (o : String) (rest links : List ProjectLink)
      → IsCarried target before rest links
      → All (Leaves source) rest
      → o ≢ source
      → Joined target o links
      → Joined target o (carry_each source target rest links)
  unfolding carry_each
  Joined-carry_each o [] links c all ne j = j
  Joined-carry_each o (l ∷ rest) links c all ne j =
      Joined-carry_each o rest (carry_one source target l links)
        (carry_one-IsCarried source target before l rest links c) all.1 ne
        (Joined-carry_one l rest links c all.0 o ne j)

  -- after the first loop: no row is left, and every row's other project is joined
  pub handed_over :
      (rest links : List ProjectLink)
      → IsCarried target before rest links
      → All (Leaves source) rest
      → All (λ m. touches source m ≡ true → waits rest m ≡ true) links
      → All (λ m. touches source m ≡ false) (carry_each source target rest links)
        × All
            (λ l.
              other_of source l ≢ target
              → Joined target (other_of source l) (carry_each source target rest links))
            rest
  unfolding carry_each
  handed_over [] links c all left = (
    All-turn (λ m. touches source m ≡ true → false ≡ true) (λ m. touches source m ≡ false)
        (λ m h. elim (Bool-cases (touches source m)) [ inl t ↦ absurd (cc (h t)) | inr t ↦ t ])
        links left,
    tt,
  )
  handed_over (l ∷ rest) links c all left =
      let after = carry_one source target l links in
      let c' = carry_one-IsCarried source target before l rest links c in
      let (gone, joined) =
        handed_over rest after c' all.1 (left-carry_one l rest links c all.0 left) in
      (
        gone,
        (
          λ ne.
              Joined-carry_each (other_of source l) rest after c' all.1 (other-ne l all.0)
                (Joined-carried l rest links c all.0 ne),
          joined,
        ),
      )
