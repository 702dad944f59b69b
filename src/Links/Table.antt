-- ===== src/Links/Table.antt =====
-- The table of links and the row that is saved under a pair of projects: `find` and `save` in
-- backend/repositories/link.py.
use mathlib.Core.List.Memᴰ
use knowledgebase_storage.Common.{
  String, ◌≡◌, refl, sym, ◌∙◌, subst, ◌⊎◌, inl, inr, true, false, none, some, List, [], ◌∷◌, Memᴰ,
  arith, eqb, Bool-cases, All,
}
use knowledgebase_storage.Common.Table.{first, put}
use knowledgebase_storage.Common.Table.Laws.{All-put, All-first, All-get, first-none}
use knowledgebase_storage.Links.{ProjectLink, joins, find, save_link}
use knowledgebase_storage.Links.Pairs.{
  apart, IsTidy, joins_one, joins_symm, same_id, Kept, All-map, Kept-cons, All-others, apart_taken,
  apart_written,
}

module _ (s t : String) (x : ProjectLink) (joined : joins s t x ≡ true) where
  abbrev pub Saved : List ProjectLink → Type 0
  Saved links = All (Kept s t x links) (save_link x links) × IsTidy (save_link x links)

  Saved-behind :
      (l : ProjectLink) (ls : List ProjectLink)
      → joins s t l ≡ false
      → eqb l.id x.id ≡ false
      → All (λ m. apart l m ≡ true) ls
      → Saved ls
      → Saved (l ∷ ls)
  unfolding save_link put
  Saved-behind l ls j i a (kept, tidy) = rw (id_symm x l i) (
    (inr (Memᴰ.head refl, j), All-map (Kept-cons s t x l ls) (save_link x ls) kept),
    (All-put (λ m. apart l m ≡ true) same_id x ls (apart_written s t l x i j joined) a, tidy),
  )
    where
      id_symm : (a b : ProjectLink) → eqb b.id a.id ≡ false → eqb a.id b.id ≡ false
      id_symm a b h = ground arith

  -- the row that `find` gave is written anew
  pub save_link-found :
      (links : List ProjectLink) (e : ProjectLink)
      → IsTidy links
      → find links s t ≡ some e
      → eqb x.id e.id ≡ true
      → Saved links
  unfolding find first save_link put
  save_link-found [] e tidy f i = absurd (cc)
  save_link-found (l ∷ ls) e tidy f i = elim (Bool-cases (joins s t l)) [
    | inl j ↦
        let same : eqb x.id l.id ≡ true = ground arith in
        rw same (
          (inl refl, All-others s t x l (l ∷ ls) ls j (λ m n. Memᴰ.tail n) tidy.0),
          (All-map (λ m a. apart_taken s t x l m same j joined a) ls tidy.0, tidy.1),
        )
    | inr j ↦
        let rest : find ls s t ≡ some e = rw (j, first) at f in
        let a = All-first (λ m. apart l m ≡ true) (joins s t) ls tidy.0 rest in
        Saved-behind l ls j (ground arith) tidy.0 (save_link-found ls e tidy.1 rest i)
  ]

  -- a row is added where `find` gave none
  pub save_link-fresh :
      (links : List ProjectLink)
      → IsTidy links
      → find links s t ≡ none
      → All (λ m. eqb m.id x.id ≡ false) links
      → Saved links
  unfolding find first save_link put
  save_link-fresh [] tidy f fresh = ((inl refl, tt), (tt, tt))
  save_link-fresh (l ∷ ls) tidy f fresh = elim (Bool-cases (joins s t l)) [
    | inl j ↦ absurd (let e : some l ≡ none = rw (j, first) at f in cc)
    | inr j ↦
        Saved-behind l ls j fresh.0 tidy.0 (save_link-fresh ls tidy.1 (rw (j, first) at f) fresh.1)
  ]

  -- a row is moved to a pair that no row joins, whether its identifier is in the table or not
  pub save_link-moved :
      (links : List ProjectLink) → IsTidy links → find links s t ≡ none → Saved links
  unfolding find first save_link put
  save_link-moved [] tidy f = ((inl refl, tt), (tt, tt))
  save_link-moved (l ∷ ls) tidy f = elim (Bool-cases (joins s t l)) [
    | inl j ↦ absurd (let e : some l ≡ none = rw (j, first) at f in cc)
    | inr j ↦
        let rest : find ls s t ≡ none = rw (j, first) at f in
        elim (Bool-cases (eqb x.id l.id)) [
          | inl same ↦
              let others = first-none (joins s t) ls (unfold find in rest) in
              rw same (
                (inl refl, unjoined l ls ls (λ m n. n) others),
                (moved-apart l ls same others tidy.0, tidy.1),
              )
          | inr new ↦ Saved-behind l ls j (id_symm l x new) tidy.0 (save_link-moved ls tidy.1 rest)
        ]
  ]
    where
      id_symm : (a b : ProjectLink) → eqb b.id a.id ≡ false → eqb a.id b.id ≡ false
      id_symm a b h = ground arith

      unjoined :
          (l : ProjectLink) (all ls : List ProjectLink)
          → ((m : ProjectLink) → Memᴰ m ls → Memᴰ m all)
          → All (λ m. joins s t m ≡ false) ls
          → All (Kept s t x (l ∷ all)) ls
      unjoined l all [] into h = tt
      unjoined l all (m ∷ ms) into h = (
        inr (Memᴰ.tail (into m (Memᴰ.head refl)), h.0),
        unjoined l all ms (λ n i. into n (Memᴰ.tail i)) h.1,
      )

      moved-apart :
          (l : ProjectLink) (ls : List ProjectLink)
          → eqb x.id l.id ≡ true
          → All (λ m. joins s t m ≡ false) ls
          → All (λ m. apart l m ≡ true) ls
          → All (λ m. apart x m ≡ true) ls
      moved-apart l [] i h a = tt
      moved-apart l (m ∷ ms) i h a =
          (ground (arith, joins_one s t x m joined h.0, a.0), moved-apart l ms i h.1 a.1)

-- two rows of a tidy table are the same row, or apart
pub tidy_pair :
    (links : List ProjectLink) (a b : ProjectLink)
    → IsTidy links
    → Memᴰ a links
    → Memᴰ b links
    → (a ≡ b) ⊎ ((eqb a.id b.id ≡ false) × (joins a.source a.target b ≡ false))
tidy_pair [] a b tidy m n = absurd (Memᴰ.not-nil m)
tidy_pair (l ∷ ls) a b tidy m n = elim (Memᴰ.cases_cons m) [
  | inl e ↦ elim (Memᴰ.cases_cons n) [
    | inl f ↦ inl (e ∙ sym f)
    | inr k ↦ inr (
        subst (λ c. (eqb c.id b.id ≡ false) × (joins c.source c.target b ≡ false)) (sym e)
          (parted l b (All-get (λ m. apart l m ≡ true) ls b tidy.0 k)))
  ]
  | inr k ↦ elim (Memᴰ.cases_cons n) [
    | inl f ↦ inr (
        subst (λ c. (eqb a.id c.id ≡ false) × (joins a.source a.target c ≡ false)) (sym f)
          (flipped l a (parted l a (All-get (λ m. apart l m ≡ true) ls a tidy.0 k))))
    | inr j ↦ tidy_pair ls a b tidy.1 k j
  ]
]
  where
    parted :
        (c d : ProjectLink)
        → apart c d ≡ true
        → (eqb c.id d.id ≡ false) × (joins c.source c.target d ≡ false)
    parted c d h = (ground arith, ground arith)

    flipped :
        (c d : ProjectLink)
        → (eqb c.id d.id ≡ false) × (joins c.source c.target d ≡ false)
        → (eqb d.id c.id ≡ false) × (joins d.source d.target c ≡ false)
    flipped c d (i, j) = (ground arith, rw (sym (joins_symm c d)) j)
