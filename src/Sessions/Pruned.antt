-- ===== src/Sessions/Pruned.antt =====
-- `prune` and `verified` of backend/summarizers/session.py: which observations go, and which are rewritten.
use Prim.Native.Char.{Char}
use mathlib.Core.List
use knowledgebase_storage.Common.{
  keep-append, ℕ, suc, ◌+◌, ◌≤◌, String, ◌≡◌, refl, sym, ap, ◌∙◌, ◌⊎◌, inl, inr, Bool, true, not,
  ◌&&◌, List, [], ◌∷◌, ◌++◌, map, Option, arith, ◌==◌, ltb, Bool-cases, length, keep,
}
use knowledgebase_storage.Sessions.{Observation, SessionItem}
use knowledgebase_storage.Sessions.Header.{
  Supersede, is_dropped, prune_observations, prune, is_verified, judged_text, VerifyVerdict,
  Checked, verify_one, verify_each, verify_items,
}

-- The observations of a session, item after item.
abbrev pub observations_of : List SessionItem → List Observation
observations_of [] = []
observations_of (i ∷ is) = i.observations ++ observations_of is

-- Each with its number, as the last prompt shows it.
abbrev pub numbered : ℕ → List Observation → List (ℕ × Observation)
numbered counted [] = []
numbered counted (o ∷ os) = (suc counted, o) ∷ numbered (suc counted) os

abbrev pub without_observations : SessionItem → SessionItem
without_observations i = record i { observations = [] }

abbrev second : ℕ × Observation → Observation
second p = p.1

abbrev stays : List Supersede → ℕ × Observation → Bool
stays superseded p = not (is_dropped superseded p.0)

prune_observations-keep :
    (superseded : List Supersede) (counted : ℕ) (os : List Observation)
    → prune_observations superseded counted os
      ≡ map second (keep (stays superseded) (numbered counted os))
unfolding prune_observations keep
prune_observations-keep superseded counted [] = refl
prune_observations-keep superseded counted (o ∷ os) =
    elim (Bool-cases (is_dropped superseded (suc counted))) [
      | inl e ↦ rw e (prune_observations-keep superseded (suc counted) os)
      | inr e ↦ rw e (ap (λ t. o ∷ t) (prune_observations-keep superseded (suc counted) os))
    ]

numbered-append :
    (counted : ℕ) (os ps : List Observation)
    → numbered counted (os ++ ps) ≡ numbered counted os ++ numbered (counted + length os) ps
numbered-append counted [] ps = ap (λ n. numbered n ps) (omega arith)
numbered-append counted (o ∷ os) ps =
    ap (λ t. (suc counted, o) ∷ t)
      (numbered-append (suc counted) os ps
        ∙ ap (λ n. numbered (suc counted) os ++ numbered n ps) (omega arith))

-- What `prune` leaves of the observations of all items, in order, is what is left of them when they are
-- numbered through and those are taken out whose number a later one supersedes; it leaves the rest of each
-- item as it is.
pub prune_lem :
    (superseded : List Supersede) (counted : ℕ) (items : List SessionItem)
    → (observations_of (prune superseded counted items)
        ≡ map
            (λ (p : ℕ × Observation). p.1)
            (keep
              (λ (p : ℕ × Observation). not (is_dropped superseded p.0))
              (numbered counted (observations_of items))))
      × (map without_observations (prune superseded counted items) ≡ map without_observations items)
unfolding prune
prune_lem superseded counted [] = (unfold keep in refl, refl)
prune_lem superseded counted (i ∷ is) =
    let (left, same) = prune_lem superseded (counted + length i.observations) is in
    (
      ap (λ t. prune_observations superseded counted i.observations ++ t) left
          ∙ ap
              (λ t.
                t
                ++ map second (
                    keep (stays superseded)
                      (numbered (counted + length i.observations) (observations_of is))))
              (prune_observations-keep superseded counted i.observations)
          ∙ sym (
              List.map-append second (keep (stays superseded) (numbered counted i.observations)) (
                keep (stays superseded)
                  (numbered (counted + length i.observations) (observations_of is))))
          ∙ ap (map second) (
              sym (
                keep-append (stays superseded) (numbered counted i.observations)
                  (numbered (counted + length i.observations) (observations_of is))))
          ∙ ap (λ t. map second (keep (stays superseded) t))
              (sym (numbered-append counted i.observations (observations_of is))),
      ap (λ (t : List SessionItem). without_observations i ∷ t) same,
    )

-- The two lists are of one length, and the relation holds at each place.
abbrev pub Each : {A : Type 0} → (A → A → Type 0) → List A → List A → Type 0
Each R [] [] = Unit
Each R [] (y ∷ ys) = ⊥
Each R (x ∷ xs) [] = ⊥
Each R (x ∷ xs) (y ∷ ys) = R x y × Each R xs ys

-- The observation is as it was, or a claim with another text.
abbrev pub Reworded : Observation → Observation → Type 0
Reworded o o' = (o' ≡ o) ⊎ ((is_verified o.category ≡ true) × (o' ≡ record o { text = o'.text }))

abbrev pub RewordedItem : SessionItem → SessionItem → Type 0
RewordedItem i j =
    (j ≡ record i { observations = j.observations }) × Each Reworded i.observations j.observations

module _ (is_space : Char → Bool)
    (investigate : (claims : ℕ) (claim : String) → Option VerifyVerdict) (at_most : ℕ) where
  -- No more corrections than claims, and no more claims than the limit.
  abbrev pub Bounded : Checked → Type 0
  Bounded c = (c.corrected ≤ c.claims) × (c.claims ≤ at_most)

  verify_one_lem :
      (c : Checked) (o : Observation)
      → Bounded c
      → let r = verify_one is_space investigate at_most c o in Bounded r.0 × Reworded o r.1
  unfolding verify_one
  verify_one_lem c o (few, within) =
      elim (Bool-cases (not (is_verified o.category && ltb c.claims at_most))) [
        | inl e ↦ rw e ((few, within), inl refl)
        | inr e ↦
            elim (Bool-cases (judged_text is_space o.text (investigate c.claims o.text) == "")) [
              | inl f ↦ rw (e, f) ((omega arith, ground (arith, e)), inl refl)
              | inr f ↦ rw (e, f) ((omega arith, ground (arith, e)), inr (ground (arith, e), refl))
            ]
      ]

  verify_each_lem :
      (c : Checked) (os : List Observation)
      → Bounded c
      → let r = verify_each is_space investigate at_most c os in Bounded r.0 × Each Reworded os r.1
  unfolding verify_each
  verify_each_lem c [] b = (b, tt)
  verify_each_lem c (o ∷ os) b =
      let (b', r) = verify_one_lem c o b in
      let (b'', rs) = verify_each_lem (verify_one is_space investigate at_most c o).0 os b' in
      (b'', (r, rs))

  -- The check of the claims corrects no more of them than the limit, and changes nothing but the text of
  -- observations that are changes or facts: there are as many items and observations as before, in order.
  pub verify_items_lem :
      (c : Checked) (items : List SessionItem)
      → Bounded c
      → let r = verify_items is_space investigate at_most c items in
        Bounded r.0 × Each RewordedItem items r.1
  unfolding verify_items
  verify_items_lem c [] b = (b, tt)
  verify_items_lem c (i ∷ is) b =
      let (b', rs) = verify_each_lem c i.observations b in
      let (b'', js) =
        verify_items_lem (verify_each is_space investigate at_most c i.observations).0 is b' in
      (b'', ((refl, rs), js))
