-- ===== src/Sessions/Groups.antt =====
-- `grouped` of backend/summarizers/session.py: every request is in one group, in order, and no group of
-- more than one request is larger than the budget.
use mathlib.Core.List
use knowledgebase_storage.Common.Members.{flatten-snoc}
use knowledgebase_storage.Common.{
  ℕ, suc, ◌+◌, ◌≤◌, String, ◌≡◌, refl, sym, ap, ◌∙◌, subst, ◌⊎◌, inl, inr, false, not, ◌&&◌, List,
  [], ◌∷◌, ◌++◌, arith, ltb, Bool-cases, length, length-append, is_empty, All,
}
use knowledgebase_storage.Common.Table.Laws.{All-append}
use knowledgebase_storage.Common.Texts.{text_length}
use knowledgebase_storage.Sessions.{text_at, chars_of, Grouping, place, place_each, grouped}

-- the numbers from one on
abbrev pub from_to : ℕ → List String → List ℕ
from_to number [] = []
from_to number (s ∷ ss) = number ∷ from_to (suc number) ss

-- A group of one request, or one that fits.
abbrev pub Fitting : List String → ℕ → List ℕ → Type 0
Fitting rendered budget group = (length group ≤ 1) ⊎ (chars_of rendered group ≤ budget)

-- The group is not empty.
abbrev pub Filled : List ℕ → Type 0
Filled group = is_empty group ≡ false

chars_of-snoc :
    (rendered : List String) (group : List ℕ) (number : ℕ)
    → chars_of rendered (group ++ (number ∷ []))
      ≡ chars_of rendered group + text_length (text_at rendered number)
unfolding chars_of
chars_of-snoc rendered [] number = omega arith
chars_of-snoc rendered (g ∷ gs) number = omega (arith, chars_of-snoc rendered gs number)

-- the text at a number is the one after those before it
text_at-append :
    (before : List String) (s : String) (after : List String)
    → text_at (before ++ (s ∷ after)) (suc (length before)) ≡ s
unfolding text_at
text_at-append [] s after = refl
text_at-append (b ∷ bs) s after = text_at-append bs s after

module _ (rendered : List String) (budget : ℕ) where
  -- The groups hold the numbers so far, and fit.
  record IsGrouped (numbers : List ℕ) (g : Grouping) : Type 0 where
    pub in_order : List.flatten g.earlier ++ g.last ≡ numbers
    pub filled : All Filled g.earlier
    pub fits : All (Fitting rendered budget) g.earlier
    pub last_fits : Fitting rendered budget g.last

  place-IsGrouped :
      (number : ℕ) (s : String) (g : Grouping) (numbers : List ℕ)
      → text_at rendered number ≡ s
      → IsGrouped numbers g
      → IsGrouped (numbers ++ (number ∷ [])) (place rendered budget number s g)
  unfolding place
  place-IsGrouped number s g numbers t h =
      elim (Bool-cases
        (not (is_empty g.last) && ltb budget (chars_of rendered g.last + text_length s))) [
          | inl e ↦ rw e (record {
            in_order =
                ap (λ (ns : List ℕ). ns ++ (number ∷ []))
                  (flatten-snoc g.earlier g.last ∙ h.in_order);
            filled = All-append Filled g.earlier (g.last ∷ []) h.filled (ground (arith, e), tt);
            fits =
                All-append (Fitting rendered budget) g.earlier (g.last ∷ []) h.fits
                  (h.last_fits, tt);
            last_fits = inl (omega arith);
          })
          | inr e ↦ rw e (record {
            in_order =
                sym (List.append_assoc (List.flatten g.earlier) g.last (number ∷ []))
                ∙ ap (λ (ns : List ℕ). ns ++ (number ∷ [])) h.in_order;
            filled = h.filled;
            fits = h.fits;
            last_fits = joined g.last e;
          })
        ]
    where
      joined :
          (group : List ℕ)
          → (not (is_empty group) && ltb budget (chars_of rendered group + text_length s)) ≡ false
          → Fitting rendered budget (group ++ (number ∷ []))
      joined [] e = inl (omega arith)
      joined (n ∷ ns) e =
          inr (ground (arith, e, chars_of-snoc rendered (n ∷ ns) number, ap text_length t))

  place_each-IsGrouped :
      (before ss : List String) (number : ℕ) (g : Grouping) (numbers : List ℕ)
      → number ≡ suc (length before)
      → before ++ ss ≡ rendered
      → IsGrouped numbers g
      → IsGrouped (numbers ++ from_to number ss) (place_each rendered budget number ss g)
  unfolding place_each
  place_each-IsGrouped before [] number g numbers at e h =
      subst (λ ns. IsGrouped ns g) (sym (List.append-nil numbers)) h
  place_each-IsGrouped before (s ∷ ss) number g numbers at e h =
      subst
        (λ ns.
          IsGrouped ns
            (place_each rendered budget (suc number) ss (place rendered budget number s g)))
        (List.append_assoc numbers (number ∷ []) (from_to (suc number) ss))
        (place_each-IsGrouped (before ++ (s ∷ [])) ss (suc number)
          (place rendered budget number s g) (numbers ++ (number ∷ []))
          (omega (arith, length-append before (s ∷ []))) (List.append_assoc before (s ∷ []) ss ∙ e)
          (place-IsGrouped number s g numbers there h))
    where
      there : text_at rendered number ≡ s
      there =
          subst (λ r. text_at r number ≡ s) e
            (subst (λ n. text_at (before ++ (s ∷ ss)) n ≡ s) (sym at) (text_at-append before s ss))

  placed : (number : ℕ) (s : String) (g : Grouping) → Filled (place rendered budget number s g).last
  unfolding place
  placed number s g =
      elim (Bool-cases
        (not (is_empty g.last) && ltb budget (chars_of rendered g.last + text_length s))) [
          | inl e ↦ rw e refl
          | inr e ↦ rw e (snoc-Filled g.last)
        ]
    where
      snoc-Filled : (group : List ℕ) → Filled (group ++ (number ∷ []))
      snoc-Filled [] = refl
      snoc-Filled (n ∷ ns) = refl

  place_each-Filled :
      (ss : List String) (number : ℕ) (g : Grouping)
      → Filled g.last
      → Filled (place_each rendered budget number ss g).last
  unfolding place_each
  place_each-Filled [] number g h = h
  place_each-Filled (s ∷ ss) number g h =
      place_each-Filled ss (suc number) (place rendered budget number s g) (placed number s g)

-- The groups of at least one request: their numbers are those of the requests, in order, each once; no
-- group is empty, and a group of more than one request has no more characters than the budget.
pub grouped_lem :
    (s : String) (ss : List String) (budget : ℕ)
    → let rendered = s ∷ ss in
      (List.flatten (grouped rendered budget) ≡ from_to 1 rendered)
      × All Filled (grouped rendered budget)
      × All (Fitting rendered budget) (grouped rendered budget)
unfolding grouped
grouped_lem s ss budget =
    let rendered = s ∷ ss in
    let begun : Grouping = record { earlier = []; last = [] } in
    let g = place_each rendered budget 1 rendered begun in
    let h = place_each-IsGrouped rendered budget [] rendered 1 begun [] refl refl begun-IsGrouped in
    (
      flatten-snoc g.earlier g.last ∙ h.in_order,
      All-append Filled g.earlier (g.last ∷ []) h.filled (last-Filled, tt),
      All-append (Fitting rendered budget) g.earlier (g.last ∷ []) h.fits (h.last_fits, tt),
    )
  where
    begun-IsGrouped : IsGrouped (s ∷ ss) budget [] (record { earlier = []; last = [] })
    begun-IsGrouped = record {
      in_order = unfold List.flatten in refl;
      filled = tt;
      fits = tt;
      last_fits = inl (omega arith);
    }

    last-Filled :
        Filled (place_each (s ∷ ss) budget 1 (s ∷ ss) (record { earlier = []; last = [] })).last
    last-Filled =
        unfold place_each in
        (place_each-Filled (s ∷ ss) budget ss 2
          (place (s ∷ ss) budget 1 s (record { earlier = []; last = [] }))
          (placed (s ∷ ss) budget 1 s (record { earlier = []; last = [] })))
