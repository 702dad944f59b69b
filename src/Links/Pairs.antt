-- ===== src/Links/Pairs.antt =====
-- Rows of the table of links in backend/repositories/link.py, and the pairs of projects that they join.

use knowledgebase_storage.Common.{
  String, ◌≡◌, refl, ◌⊎◌, inl, inr, Bool, true, false, not, ◌&&◌, List, [], ◌∷◌, Memᴰ, arith,
  eq_iff, eqb, Bool-cases, All,
}
use knowledgebase_storage.Links.{ProjectLink, joins}

-- Two rows with different identifiers and different pairs of projects.
abbrev pub apart : ProjectLink → ProjectLink → Bool
apart l m = not (eqb l.id m.id) && not (joins l.source l.target m)

abbrev pub IsTidy : List ProjectLink → Type 0
IsTidy [] = Unit
IsTidy (l ∷ ls) = All (λ m. apart l m ≡ true) ls × IsTidy ls

module _ (s t : String) (l m : ProjectLink) where
  joins_both : joins s t l ≡ true → joins s t m ≡ true → joins l.source l.target m ≡ true
  joins_both h k = ground (
    arith,
    eq_iff l.source s,
    eq_iff l.target t,
    eq_iff l.source t,
    eq_iff l.target s,
    eq_iff m.source s,
    eq_iff m.target t,
    eq_iff m.source t,
    eq_iff m.target s,
    eq_iff m.source l.source,
    eq_iff m.target l.target,
    eq_iff m.source l.target,
    eq_iff m.target l.source,
  )

  pub joins_one : joins s t l ≡ true → joins s t m ≡ false → joins l.source l.target m ≡ false
  joins_one h k = ground (
    arith,
    eq_iff l.source s,
    eq_iff l.target t,
    eq_iff l.source t,
    eq_iff l.target s,
    eq_iff m.source s,
    eq_iff m.target t,
    eq_iff m.source t,
    eq_iff m.target s,
    eq_iff m.source l.source,
    eq_iff m.target l.target,
    eq_iff m.source l.target,
    eq_iff m.target l.source,
  )

pub joins_symm : (l m : ProjectLink) → joins l.source l.target m ≡ joins m.source m.target l
joins_symm l m = ground (
  arith,
  eq_iff m.source l.source,
  eq_iff m.target l.target,
  eq_iff m.source l.target,
  eq_iff m.target l.source,
  eq_iff l.source m.source,
  eq_iff l.target m.target,
  eq_iff l.target m.source,
  eq_iff l.source m.target,
)

abbrev pub same_id : ProjectLink → ProjectLink → Bool
same_id a b = eqb a.id b.id

apart-joins : (a b : ProjectLink) → apart a b ≡ true → joins a.source a.target b ≡ false
apart-joins a b h = ground arith

-- A row of the table after `x` was saved under the pair: `x`, or a row that was there and joins others.
abbrev pub Kept : String → String → ProjectLink → List ProjectLink → ProjectLink → Type 0
Kept s t x links m = (m ≡ x) ⊎ (Memᴰ m links × (joins s t m ≡ false))

pub All-map :
    {P Q : ProjectLink → Type 0}
    → ((m : ProjectLink) → P m → Q m)
    → (ls : List ProjectLink) → All P ls
    → All Q ls
All-map f [] all = tt
All-map f (l ∷ ls) all = (f l all.0, All-map f ls all.1)

pub Kept-cons :
    (s t : String) (x l : ProjectLink) (ls : List ProjectLink) (m : ProjectLink)
    → Kept s t x ls m
    → Kept s t x (l ∷ ls) m
Kept-cons s t x l ls m (inl e) = inl e
Kept-cons s t x l ls m (inr (n, j)) = inr (Memᴰ.tail n, j)

-- rows that are apart from a row of the pair join other projects
pub All-others :
    (s t : String) (x l : ProjectLink) (all ls : List ProjectLink)
    → joins s t l ≡ true
    → ((m : ProjectLink) → Memᴰ m ls → Memᴰ m all)
    → All (λ m. apart l m ≡ true) ls
    → All (Kept s t x all) ls
All-others s t x l all [] j into a = tt
All-others s t x l all (m ∷ ms) j into a = (
  elim (Bool-cases (joins s t m)) [
    | inl k ↦ absurd (cc (joins_both s t l m j k, apart-joins l m a.0))
    | inr k ↦ inr (into m (Memᴰ.head refl), k)
  ],
  All-others s t x l all ms j (λ n i. into n (Memᴰ.tail i)) a.1,
)

-- a row that takes another's identifier and pair is apart from what that row was apart from
pub apart_taken :
    (s t : String) (x l m : ProjectLink)
    → eqb x.id l.id ≡ true
    → joins s t l ≡ true
    → joins s t x ≡ true
    → apart l m ≡ true
    → apart x m ≡ true
apart_taken s t x l m i jl jx a = elim (Bool-cases (joins s t m)) [
  | inl k ↦ absurd (cc (joins_both s t l m jl k, apart-joins l m a))
  | inr k ↦ ground (arith, joins_one s t x m jx k)
]

-- a row outside the pair is apart from one that is written under the pair
pub apart_written :
    (s t : String) (l x : ProjectLink)
    → eqb l.id x.id ≡ false
    → joins s t l ≡ false
    → joins s t x ≡ true
    → apart l x ≡ true
apart_written s t l x i jl jx = rw (i, joins_symm l x) (rw (joins_one s t x l jx jl))
