-- ===== src/Sessions/Keeps.antt =====
-- `SessionPipeline.run` of backend/summarizers/session.py: an item that is found is kept, and each request
-- has an item in the end.
use Prim.Native.Char.{Char}
use mathlib.Core.List
use knowledgebase_storage.Common.{
  ℕ, suc, String, ◌≡◌, refl, sym, ap, ◌∙◌, subst, inl, inr, Bool, true, List, [], ◌∷◌, ◌++◌, map,
  arith, Bool-cases, is_some, All,
}
use knowledgebase_storage.Common.Texts.{join}
use knowledgebase_storage.Sessions.{SessionItem, find_item, grouped, text_at}
use knowledgebase_storage.Sessions.Groups.{from_to, grouped_lem}
use knowledgebase_storage.Sessions.Pipeline.{
  Work, all_found, chunk_items, ask_one, ask_alone, ask_chunk, ask_group, ask_groups, run_groups,
  shortened, chunk_chars, items_below, head_of,
}
use knowledgebase_storage.Sessions.Found.{
  Keeps, Keeps-trans, accept_each-Keeps, accept_alone-Keeps, has_number, accept_alone-found,
  has_number-quoted, all_found-Keeps,
}

module _ (is_space : Char → Bool)
    (ask : (turns : ℕ) (chunk : String) (earlier : List SessionItem) → List SessionItem)
    (segments : List String) where
  -- Asked for this request alone, the provider gives an item of its number.
  abbrev pub Answers : ℕ → Type 0
  Answers number =
      (turns : ℕ) (earlier : List SessionItem)
      → has_number number (ask turns (text_at segments number) earlier) ≡ true

  ask_one-Keeps : (n : ℕ) (w : Work) → Keeps w.found (ask_one is_space ask segments n w).found
  unfolding ask_one
  ask_one-Keeps n w =
      let alone = chunk_items is_space ask w.turns (text_at segments n) (items_below n w.found) in
      elim (Bool-cases (is_some (find_item n w.found))) [
        | inl e ↦ rw e (λ number h. refl)
        | inr e ↦ rw e (accept_alone-Keeps n alone w.found e)
      ]

  ask_one-found :
      (n : ℕ) (w : Work)
      → Answers n
      → is_some (find_item n (ask_one is_space ask segments n w).found) ≡ true
  unfolding ask_one chunk_items
  ask_one-found n w answers =
      let alone = chunk_items is_space ask w.turns (text_at segments n) (items_below n w.found) in
      elim (Bool-cases (is_some (find_item n w.found))) [
        | inl e ↦ rw e e
        | inr e ↦ rw e (
            accept_alone-found n alone w.found (
              has_number-quoted is_space (text_at segments n) n
                (ask w.turns (text_at segments n) (items_below n w.found))
              ∙ answers w.turns (items_below n w.found)))
      ]

  ask_alone-Keeps :
      (group : List ℕ) (w : Work) → Keeps w.found (ask_alone is_space ask segments group w).found
  unfolding ask_alone
  ask_alone-Keeps [] w = λ number h. refl
  ask_alone-Keeps (n ∷ ns) w =
      let next = ask_one is_space ask segments n w in
      Keeps-trans w.found next.found (ask_alone is_space ask segments ns next).found
        (ask_one-Keeps n w) (ask_alone-Keeps ns next)

  ask_alone-found :
      (group : List ℕ) (w : Work)
      → All Answers group
      → all_found group (ask_alone is_space ask segments group w).found ≡ true
  unfolding ask_alone
  ask_alone-found [] w all = refl
  ask_alone-found (n ∷ ns) w all =
      let next = ask_one is_space ask segments n w in
      let there = ask_one-found n w all.0 in
      rw (ask_alone-Keeps ns next n there, there) (ask_alone-found ns next all.1)

  ask_group-Keeps :
      (group : List ℕ) (w : Work) → Keeps w.found (ask_group is_space ask segments group w).found
  unfolding ask_group ask_chunk
  ask_group-Keeps group w =
      let asked = ask_chunk is_space ask segments group w in
      elim (Bool-cases (all_found group w.found)) [
        | inl e ↦ rw e (λ number h. refl)
        | inr e ↦ rw e (
            Keeps-trans w.found asked.found (ask_alone is_space ask segments group asked).found
              (accept_each-Keeps group
                (chunk_items is_space ask w.turns (join "\n\n" (map (text_at segments) group))
                  (items_below (head_of group) w.found))
                w.found)
              (ask_alone-Keeps group asked))
      ]

  ask_group-found :
      (group : List ℕ) (w : Work)
      → All Answers group
      → all_found group (ask_group is_space ask segments group w).found ≡ true
  unfolding ask_group
  ask_group-found group w all = elim (Bool-cases (all_found group w.found)) [
    | inl e ↦ rw e e
    | inr e ↦ rw e (ask_alone-found group (ask_chunk is_space ask segments group w) all)
  ]

  ask_groups-Keeps :
      (groups : List (List ℕ)) (w : Work)
      → Keeps w.found (ask_groups is_space ask segments groups w).found
  unfolding ask_groups
  ask_groups-Keeps [] w = λ number h. refl
  ask_groups-Keeps (g ∷ gs) w =
      let next = ask_group is_space ask segments g w in
      Keeps-trans w.found next.found (ask_groups is_space ask segments gs next).found
        (ask_group-Keeps g w) (ask_groups-Keeps gs next)

  ask_groups-found :
      (groups : List (List ℕ)) (w : Work)
      → All (All Answers) groups
      → all_found (List.flatten groups) (ask_groups is_space ask segments groups w).found ≡ true
  unfolding ask_groups List.flatten
  ask_groups-found [] w all = refl
  ask_groups-found (g ∷ gs) w all =
      let next = ask_group is_space ask segments g w in
      let last = ask_groups is_space ask segments gs next in
      both g (List.flatten gs) last.found
        (all_found-Keeps g next.found last.found (ask_groups-Keeps gs next)
          (ask_group-found g w all.0))
        (ask_groups-found gs next all.1)
    where
      both :
          (g h : List ℕ) (found : List SessionItem)
          → all_found g found ≡ true
          → all_found h found ≡ true
          → all_found (g ++ h) found ≡ true
      both [] h found p q = q
      both (n ∷ ns) h found p q = ground (arith, p, both ns h found (ground (arith, p)) q)

All-flatten :
    (P : ℕ → Type 0) (groups : List (List ℕ)) → All P (List.flatten groups) → All (All P) groups
unfolding List.flatten
All-flatten P [] all = tt
All-flatten P (g ∷ gs) all = let (a, b) = parts g (List.flatten gs) all in (a, All-flatten P gs b)
  where
    parts : (g h : List ℕ) → All P (g ++ h) → All P g × All P h
    parts [] h all = (tt, all)
    parts (n ∷ ns) h all = let (a, b) = parts ns h all.1 in ((all.0, a), b)

from_to-map :
    (f : String → String) (number : ℕ) (ss : List String)
    → from_to number (map f ss) ≡ from_to number ss
from_to-map f number [] = refl
from_to-map f number (s ∷ ss) = ap (λ (ns : List ℕ). number ∷ ns) (from_to-map f (suc number) ss)

module _ (is_space : Char → Bool)
    (ask : (turns : ℕ) (chunk : String) (earlier : List SessionItem) → List SessionItem)
    (decimal : ℕ → String) (limit : ℕ) where
  abbrev pub cut : String → String
  cut = shortened decimal limit

  -- A run that is resumed with what was found before keeps every item found before as it is, whatever
  -- the provider answers.
  pub run_groups-Keeps :
      (segments : List String) (w : Work)
      → Keeps w.found (run_groups is_space ask decimal limit segments w).found
  unfolding run_groups
  run_groups-Keeps segments w =
      ask_groups-Keeps is_space ask (map cut segments) (grouped (map cut segments) chunk_chars) w

  -- A run over at least one request ends with an item for every request, if the provider, asked for one
  -- request alone, gives an item of that request's number.
  pub run_groups_complete :
      (s : String) (ss : List String) (w : Work)
      → All (Answers is_space ask (map cut (s ∷ ss))) (from_to 1 (s ∷ ss))
      → all_found (from_to 1 (s ∷ ss)) (run_groups is_space ask decimal limit (s ∷ ss) w).found
        ≡ true
  unfolding run_groups
  run_groups_complete s ss w all =
      let shorter = map cut (s ∷ ss) in
      let groups = grouped shorter chunk_chars in
      let (in_order, _, _) = grouped_lem (cut s) (map cut ss) chunk_chars in
      let numbers = in_order ∙ from_to-map cut 1 (s ∷ ss) in
      subst (λ ns. all_found ns (ask_groups is_space ask shorter groups w).found ≡ true) numbers
        (ask_groups-found is_space ask shorter groups w (
          All-flatten (Answers is_space ask shorter) groups
            (subst (All (Answers is_space ask shorter)) (sym numbers) all)))
