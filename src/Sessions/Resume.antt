-- ===== src/Sessions/Resume.antt =====
-- The checkpoint of backend/summarizers/session.py: what `resumed` takes back of what `saved` wrote.
use knowledgebase_storage.Common.{
  ℕ, String, ◌≡◌, refl, sym, ap, ◌∙◌, subst, inl, inr, Bool, true, false, ◌&&◌, Option, none, some,
  List, [], ◌∷◌, arith, ◌==◌, eqb, if◌then◌else◌, Bool-cases, Option-cases, All,
}
use knowledgebase_storage.Common.Table.{first, put}
use knowledgebase_storage.Common.Table.Laws.{first-put}
use knowledgebase_storage.Sessions.{
  SessionItem, find_item, store_item, lookup_at, SessionCheckpoint, SavedCheckpoint, hashed,
  same_hash, take_back, take_back_each, numbered_from, resumed, saved, saved_segments,
}

-- A dictionary has one entry for a number.
abbrev pub Distinct : List SessionItem → Type 0
Distinct [] = Unit
Distinct (i ∷ is) = All (λ j. eqb j.number i.number ≡ false) is × Distinct is

find-absent :
    (number : ℕ) (items : List SessionItem)
    → All (λ j. eqb j.number number ≡ false) items
    → find_item number items ≡ none
unfolding find_item first
find-absent number [] all = refl
find-absent number (i ∷ is) all = rw all.0 (find-absent number is all.1)

pub find-store_self :
    (i : SessionItem) (found : List SessionItem) → find_item i.number (store_item i found) ≡ some i
unfolding find_item store_item
find-store_self i found =
    first-put (λ (a b : SessionItem). eqb a.number b.number) (λ j. eqb j.number i.number) i found
      (ground arith) (λ y h. ground (arith, h))

pub find-store_other :
    (number : ℕ) (i : SessionItem) (found : List SessionItem)
    → eqb i.number number ≡ false
    → find_item number (store_item i found) ≡ find_item number found
unfolding find_item store_item first put
find-store_other number i [] h = rw h refl
find-store_other number i (j ∷ js) h = elim (Bool-cases (eqb i.number j.number)) [
  | inl e ↦ let k : eqb j.number number ≡ false = ground (arith, h, e) in rw (e, h, k) refl
  | inr e ↦ rw (e, find-store_other number i js h) refl
]

-- the hash that was saved for an item is that of its segment
saved-hash :
    (number : ℕ) (segments : List (ℕ × String)) (found : List SessionItem) {i : SessionItem}
    → find_item number found ≡ some i
    → hashed (lookup_at number (saved_segments segments found)) ≡ lookup_at number segments
unfolding find_item first saved_segments lookup_at
saved-hash number segments [] {i = i} h = absurd (cc)
saved-hash number segments (j ∷ js) {i = i} h = elim (Bool-cases (eqb j.number number)) [
  | inl e ↦ rw e (ap (λ n. lookup_at n segments) (same_number j.number number e))
  | inr e ↦ rw e (saved-hash number segments js {i = i} (rw (e, first) at h))
]
  where
    same_number : (a b : ℕ) → eqb a b ≡ true → a ≡ b
    same_number a b e = ground (arith, e)

-- What one number is found to be, after the items were taken back.
abbrev taken : Bool → Option SessionItem → Option SessionItem → Option SessionItem
taken unchanged none held = held
taken unchanged (some i) held = if unchanged then some i else held

module _ (sv : SavedCheckpoint) (number : ℕ) where
  abbrev unchanged : SessionCheckpoint → Bool
  unchanged c = same_hash (hashed (lookup_at number sv.segments)) (lookup_at number c.segments)

  take_back-segments :
      (i : SessionItem) (c : SessionCheckpoint) → (take_back sv i c).segments ≡ c.segments
  unfolding take_back
  take_back-segments i c = ground arith

  find-take_back_other :
      (i : SessionItem) (c : SessionCheckpoint)
      → eqb i.number number ≡ false
      → find_item number (take_back sv i c).found ≡ find_item number c.found
  unfolding take_back
  find-take_back_other i c h =
      elim (Bool-cases
        (same_hash (hashed (lookup_at i.number sv.segments)) (lookup_at i.number c.segments))) [
          | inl e ↦ rw e (find-store_other number i c.found h)
          | inr e ↦ rw e refl
        ]

  find-take_back_self :
      (i : SessionItem) (c : SessionCheckpoint)
      → i.number ≡ number
      → find_item number (take_back sv i c).found
        ≡ (if unchanged c then some i else find_item number c.found)
  unfolding take_back
  find-take_back_self i c h = elim (Bool-cases (unchanged c)) [
    | inl e ↦ rw e (
        rw
          (subst (λ n. same_hash (hashed (lookup_at n sv.segments)) (lookup_at n c.segments) ≡ true)
            (sym h) e)
          (subst (λ n. find_item n (store_item i c.found) ≡ some i) h (find-store_self i c.found)))
    | inr e ↦ rw e (
        rw
          (subst
            (λ n. same_hash (hashed (lookup_at n sv.segments)) (lookup_at n c.segments) ≡ false)
            (sym h) e)
          refl)
  ]

  find-take_back_each :
      (items : List SessionItem) (c : SessionCheckpoint)
      → Distinct items
      → find_item number (take_back_each sv items c).found
        ≡ taken (unchanged c) (find_item number items) (find_item number c.found)
  unfolding take_back_each
  find-take_back_each [] c d = unfold find_item first in refl
  find-take_back_each (i ∷ is) c d =
      find-take_back_each is (take_back sv i c) d.1 ∙ elim (Bool-cases (eqb i.number number)) [
        | inl e ↦
            let same : i.number ≡ number = ground (arith, e) in
            rw
              (
                find_head i is e,
                find-absent number is (subst (λ n. All (λ j. eqb j.number n ≡ false) is) same d.0),
              )
              (find-take_back_self i c same)
        | inr e ↦ rw (find_tail i is e, find-take_back_other i c e, take_back-segments i c) refl
      ]
    where
      find_head :
          (i : SessionItem) (is : List SessionItem)
          → eqb i.number number ≡ true
          → find_item number (i ∷ is) ≡ some i
      find_head i is e = unfold find_item first in rw e refl

      find_tail :
          (i : SessionItem) (is : List SessionItem)
          → eqb i.number number ≡ false
          → find_item number (i ∷ is) ≡ find_item number is
      find_tail i is e = unfold find_item first in rw e refl

of_saved :
    (c : SessionCheckpoint) (now : List (ℕ × String)) (number : ℕ)
    → taken
        (same_hash
          (hashed (lookup_at number (saved_segments c.segments c.found)))
          (lookup_at number now))
        (find_item number c.found)
        none
      ≡ (if same_hash (lookup_at number c.segments) (lookup_at number now)
          then find_item number c.found
          else none)
of_saved c now number = elim (Option-cases (find_item number c.found)) [
  | inl e ↦ rw e (either (same_hash (lookup_at number c.segments) (lookup_at number now)))
  | inr (i, e) ↦ rw (saved-hash number c.segments c.found e, e) refl
]
  where
    either :
        (b : Bool)
        → let nothing : Option SessionItem = none in nothing ≡ (if b then nothing else nothing)
    either true = refl
    either false = refl

-- A checkpoint that was saved and is resumed for requests with their texts as they are now: of each number
-- the item is there that was saved for it, if the prompts are the same and the request still has the text
-- that it had, and no item otherwise.
pub resumed-saved :
    (hash : String → String) (stages : String) (c : SessionCheckpoint) (segments : List String)
    (number : ℕ)
    → Distinct c.found
    → find_item number (resumed hash stages (some (saved c)) segments).found ≡ (
        if c.digest == hash stages
          && same_hash
              (lookup_at number c.segments)
              (lookup_at number (numbered_from hash 1 segments))
        then find_item number c.found
        else none)
unfolding resumed saved
resumed-saved hash stages c segments number d =
    let now = numbered_from hash 1 segments in
    elim (Bool-cases (c.digest == hash stages)) [
      | inl e ↦ rw e (find-take_back_each (saved c) number c.found fresh d ∙ of_saved c now number)
      | inr e ↦ rw e (unfold find_item first in refl)
    ]
  where
    fresh : SessionCheckpoint
    fresh = record {
      digest = hash stages;
      segments = numbered_from hash 1 segments;
      found = [];
      makers = [];
    }
