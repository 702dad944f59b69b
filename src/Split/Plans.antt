-- ===== src/Split/Plans.antt =====
-- `plan` of backend/services/split.py and `filed` of backend/summarizers/session.py together: every request
-- is filed under the container, a project whose files it names, or a project that the provider knows.
use Prim.Native.Char.{Char}
use knowledgebase_storage.Common.{
  ℕ, suc, ◌*◌, String, ◌≡◌, refl, sym, ap, subst, ◌⊎◌, inl, inr, Bool, true, false, not, ◌&&◌, some,
  List, [], ◌∷◌, map, arith, ◌==◌, eq_iff, eqb, ltb, leb, Bool-cases, contains, All, is_empty,
}
use knowledgebase_storage.Sessions.{lookup_at, store_at}
use knowledgebase_storage.Sessions.Groups.{from_to}
use knowledgebase_storage.Split.{
  Prefixes, vote_lines, votes_of, most_common, total, decided_by, decided, is_llm, SplitRow,
  or_project, plan_from, plan, file_row, file_rows, filed, split_prompt, request_of,
  short_reply_chars,
}
use knowledgebase_storage.Names.{strip}
use knowledgebase_storage.Common.Texts.{text_length}
use knowledgebase_storage.Split.Votes.{
  lookup-store, names_of, vote_lines-AreNames, most_common-name,
}

module _ (prefixes : Prefixes) (names : List String) (container : String) where
  -- The container, a project whose files the session may name, or one that the provider may choose.
  abbrev pub IsPlace : String → Type 0
  IsPlace project =
      (project ≡ container)
      ⊎ ((contains (names_of prefixes) project ≡ true) ⊎ (contains names project ≡ true))

  or_project-IsPlace :
      (project other : String)
      → (project ≡ "") ⊎ IsPlace project
      → IsPlace other
      → IsPlace (or_project project other)
  or_project-IsPlace project other p o = elim (Bool-cases (project == "")) [
    | inl e ↦ rw e o
    | inr e ↦ rw e (elim p [
      | inl nothing ↦ absurd (ground (arith, e, nothing, eq_iff project ""))
      | inr place ↦ place
    ])
  ]

  module _ (is_space : Char → Bool) (lines : String → List String) where
    decided-IsPlace :
        (segment previous : String)
        → IsPlace previous
        → let d = decided is_space lines segment prefixes previous in
          (d.project ≡ "") ⊎ IsPlace d.project
    unfolding decided decided_by votes_of
    decided-IsPlace segment previous place =
        let votes = vote_lines (lines segment) prefixes [] in
        elim (Bool-cases
          (leb 3 (total votes) && leb (3 * total votes) (4 * (most_common votes).1))) [
            | inl e ↦
                rw e
                  (elim (most_common-name prefixes votes
                    (vote_lines-AreNames prefixes (lines segment) [] tt)) [
                      | inl nothing ↦ inl nothing
                      | inr name ↦ inr (inr (inl name))
                    ])
            | inr e ↦
                elim (Bool-cases (
                  eqb (total votes) 0
                  && ltb (text_length (strip is_space (request_of segment))) short_reply_chars)) [
                    | inl f ↦ rw (e, f) (inr place)
                    | inr f ↦ rw (e, f) (inl refl)
                  ]
          ]

    plan_from-IsPlace :
        (segments : List String) (number : ℕ) (previous : String)
        → IsPlace previous
        → let rows = plan_from is_space lines number segments prefixes container previous in
          All (λ (r : SplitRow). IsPlace r.project) rows
          × (map (λ (r : SplitRow). r.number) rows ≡ from_to number segments)
    unfolding plan_from
    plan_from-IsPlace [] number previous place = (tt, refl)
    plan_from-IsPlace (s ∷ ss) number previous place =
        let d = decided is_space lines s prefixes previous in
        let p = decided-IsPlace s previous place in
        let (places, numbers) =
          plan_from-IsPlace ss (suc number) (or_project d.project previous)
            (or_project-IsPlace d.project previous p place) in
        (
          (or_project-IsPlace d.project container p (inl refl), places),
          ap (λ (ns : List ℕ). number ∷ ns) numbers,
        )

    plan-IsPlace :
        (segments : List String)
        → let rows = plan is_space lines segments prefixes container in
          All (λ (r : SplitRow). IsPlace r.project) rows
          × (map (λ (r : SplitRow). r.number) rows ≡ from_to 1 segments)
    unfolding plan
    plan-IsPlace segments = plan_from-IsPlace segments 1 container (inl refl)

  module _ (choose : (number : ℕ) (seen : String) → String)
      (segments candidates : List String) where
    file_row-IsPlace :
        (r : SplitRow) (previous : String)
        → IsPlace r.project
        → IsPlace previous
        → IsPlace (file_row choose segments candidates names r previous)
    unfolding file_row
    file_row-IsPlace r previous place before =
        let choice = choose r.number (split_prompt segments candidates previous r.number) in
        elim (Bool-cases (not (is_llm r.how))) [
          | inl e ↦ rw e place
          | inr e ↦ elim (Bool-cases (contains names choice)) [
            | inl f ↦ rw (e, f) (inr (inr f))
            | inr f ↦ rw (e, f) before
          ]
        ]

    -- The request is filed, under a place that is one.
    abbrev pub IsFiled : List (ℕ × String) → ℕ → Type 0
    IsFiled decisions number =
        (project : String) × (lookup_at number decisions ≡ some project) × IsPlace project

    store-IsFiled :
        (number other : ℕ) (project : String) (decisions : List (ℕ × String))
        → IsPlace project
        → IsFiled decisions other
        → IsFiled (store_at number project decisions) other
    store-IsFiled number other project decisions place (held, e, h) =
        elim (Bool-cases (eqb number other)) [
          | inl f ↦ (project, rw (lookup-store number other project decisions, f) refl, place)
          | inr f ↦ (held, rw (lookup-store number other project decisions, f) e, h)
        ]

    store-IsFiled_self :
        (number : ℕ) (project : String) (decisions : List (ℕ × String))
        → IsPlace project
        → IsFiled (store_at number project decisions) number
    store-IsFiled_self number project decisions place =
        (project, rw (lookup-store number number project decisions, itself number) refl, place)
      where
        itself : (n : ℕ) → eqb n n ≡ true
        itself n = ground arith

    file_rows-keeps :
        (rs : List SplitRow) (previous : String) (decisions : List (ℕ × String)) (number : ℕ)
        → All (λ (r : SplitRow). IsPlace r.project) rs
        → IsPlace previous
        → IsFiled decisions number
        → IsFiled (file_rows choose segments candidates names rs previous decisions) number
    unfolding file_rows
    file_rows-keeps [] previous decisions number all place h = h
    file_rows-keeps (r ∷ rs) previous decisions number all place h =
        let here = file_row-IsPlace r previous all.0 place in
        file_rows-keeps rs (file_row choose segments candidates names r previous) _ number all.1
          here
          (store-IsFiled r.number number (file_row choose segments candidates names r previous)
            decisions here h)

    file_rows-IsFiled :
        (rs : List SplitRow) (previous : String) (decisions : List (ℕ × String))
        → All (λ (r : SplitRow). IsPlace r.project) rs
        → IsPlace previous
        → All
            (IsFiled (file_rows choose segments candidates names rs previous decisions))
            (map (λ (r : SplitRow). r.number) rs)
    unfolding file_rows
    file_rows-IsFiled [] previous decisions all place = tt
    file_rows-IsFiled (r ∷ rs) previous decisions all place =
        let here = file_row-IsPlace r previous all.0 place in
        let next = file_row choose segments candidates names r previous in
        let stored = store_at r.number next decisions in
        (
          file_rows-keeps rs next stored r.number all.1 here
              (store-IsFiled_self r.number next decisions here),
          file_rows-IsFiled rs next stored all.1 here,
        )

filed-rows :
    (choose : (number : ℕ) (seen : String) → String) (segments candidates names : List String)
    (system : String) (rows : List SplitRow) (container : String)
    → (system == "") ≡ false
    → is_empty rows ≡ false
    → filed choose segments candidates names system rows container
      ≡ file_rows choose segments candidates names rows container []
unfolding filed
filed-rows choose segments candidates names system rows container h some_rows =
    rw (h, some_rows) refl

-- The requests of a session, split by `plan` and filed with the provider's choices, where the stage has a
-- prompt: each request, from the first to the last, is filed, under the container, a project whose path
-- prefix is not empty, or a project that the provider knows.
pub filed-plan :
    (is_space : Char → Bool) (lines : String → List String)
    (choose : (number : ℕ) (seen : String) → String) (segment : String)
    (segments candidates names : List String) (prefixes : Prefixes) (system container : String)
    → (system == "") ≡ false
    → All
        (IsFiled prefixes names container choose (segment ∷ segments) candidates (
          filed choose
            (segment ∷ segments)
            candidates
            names
            system
            (plan is_space lines (segment ∷ segments) prefixes container)
            container))
        (from_to 1 (segment ∷ segments))
filed-plan is_space lines choose segment segments candidates names prefixes system container h =
    let all = segment ∷ segments in
    let rows = plan is_space lines all prefixes container in
    let (places, numbers) = plan-IsPlace prefixes names container is_space lines all in
    let filing = filed-rows choose all candidates names system rows container h some_rows in
    subst (λ d. All (IsFiled prefixes names container choose all candidates d) (from_to 1 all))
      (sym filing)
      (subst
        (All (
          IsFiled prefixes names container choose all candidates
            (file_rows choose all candidates names rows container [])))
        numbers
        (file_rows-IsFiled prefixes names container choose all candidates rows container [] places
          (inl refl)))
  where
    some_rows : is_empty (plan is_space lines (segment ∷ segments) prefixes container) ≡ false
    some_rows = unfold plan in (unfold plan_from in refl)
