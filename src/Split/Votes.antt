-- ===== src/Split/Votes.antt =====
-- `votes_of` of backend/services/split.py: what has votes is a project with a path prefix.
use knowledgebase_storage.Common.{
  false, ℕ, ◌*◌, String, ◌≡◌, refl, ◌⊎◌, inl, inr, true, not, ◌&&◌, some, List, [], ◌∷◌, arith,
  ◌==◌, eq_iff, eqb, ltb, if◌then◌else◌, Bool-cases, contains,
}
use knowledgebase_storage.Sessions.{lookup_at, store_at}
use knowledgebase_storage.Split.{
  Prefixes, Votes, vote, vote_line, vote_lines, most_common, weight_of, count_from,
}
use knowledgebase_storage.Names.{has_part}

pub lookup-store {ℓ} :
    {A : Type ℓ} (number other : ℕ) (value : A) (entries : List (ℕ × A))
    → lookup_at other (store_at number value entries)
      ≡ (if eqb number other then some value else lookup_at other entries)
unfolding lookup_at store_at
lookup-store number other value [] = refl
lookup-store number other value ((key, held) ∷ rest) = elim (Bool-cases (eqb key number)) [
  | inl e ↦ rw e (ground (arith, e))
  | inr e ↦ rw (e, lookup-store number other value rest) (ground (arith, e))
]

-- The projects that have a path prefix.
abbrev pub names_of : Prefixes → List String
names_of [] = []
names_of ((name, prefix) ∷ rest) = if prefix == "" then names_of rest else name ∷ names_of rest

-- The names of all entries are among these.

abbrev AreNames : Prefixes → Votes → Type 0
AreNames prefixes [] = Unit
AreNames prefixes ((name, n) ∷ rest) =
    (contains (names_of prefixes) name ≡ true) × AreNames prefixes rest

module _ (all : Prefixes) where
  vote-AreNames :
      (name : String) (n : ℕ) (votes : Votes)
      → contains (names_of all) name ≡ true
      → AreNames all votes
      → AreNames all (vote name n votes)
  unfolding vote
  vote-AreNames name n [] h v = (h, tt)
  vote-AreNames name n ((other, held) ∷ rest) h v = elim (Bool-cases (other == name)) [
    | inl e ↦ rw e (v.0, v.1)
    | inr e ↦ rw e (v.0, vote-AreNames name n rest h v.1)
  ]

  vote_line-AreNames :
      (line : String) (rest : Prefixes) (votes : Votes)
      → ((name : String)
          → contains (names_of rest) name ≡ true
          → contains (names_of all) name ≡ true)
      → AreNames all votes
      → AreNames all (vote_line line rest votes)
  unfolding vote_line
  vote_line-AreNames line [] votes into v = v
  vote_line-AreNames line ((name, prefix) ∷ rest) votes into v =
      vote_line-AreNames line rest _ (λ other h. into other (later name prefix rest other h))
        (elim (Bool-cases (not (prefix == "") && has_part prefix line)) [
          | inl e ↦ rw e (
              vote-AreNames name (weight_of line * count_from prefix 0 line) votes
                (into name (itself name prefix rest (ground (arith, e)))) v)
          | inr e ↦ rw e v
        ])
    where
      itself :
          (name prefix : String) (others : Prefixes)
          → (prefix == "") ≡ false
          → contains (names_of ((name, prefix) ∷ others)) name ≡ true
      itself name prefix others full = rw full (ground (arith, eq_iff name name))

      later :
          (name prefix : String) (others : Prefixes) (other : String)
          → contains (names_of others) other ≡ true
          → contains (names_of ((name, prefix) ∷ others)) other ≡ true
      later name prefix others other h = elim (Bool-cases (prefix == "")) [
        | inl e ↦ rw e h
        | inr e ↦ rw e (ground (arith, h))
      ]

  pub vote_lines-AreNames :
      (ls : List String) (votes : Votes)
      → AreNames all votes
      → AreNames all (vote_lines ls all votes)
  unfolding vote_lines
  vote_lines-AreNames [] votes v = v
  vote_lines-AreNames (l ∷ ls) votes v =
      vote_lines-AreNames ls (vote_line l all votes)
        (vote_line-AreNames l all votes (λ name h. h) v)

  pub most_common-name :
      (votes : Votes)
      → AreNames all votes
      → ((most_common votes).0 ≡ "") ⊎ (contains (names_of all) (most_common votes).0 ≡ true)
  unfolding most_common
  most_common-name [] v = inl refl
  most_common-name ((name, n) ∷ rest) v = elim (Bool-cases (ltb n (most_common rest).1)) [
    | inl e ↦ rw e (most_common-name rest v.1)
    | inr e ↦ rw e (inr v.0)
  ]
