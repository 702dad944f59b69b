-- ===== src/Links/Walk.antt =====
-- The walk of `would_cycle` in backend/repositories/link.py: its end and its answer.
use mathlib.Core.List.Memᴰ
use knowledgebase_storage.Common.{
  ℕ, zero, suc, ◌+◌, ◌<◌, String, ◌≡◌, refl, sym, ap, subst, ◌⊎◌, inl, inr, Bool, true, false, some,
  List, [], ◌∷◌, ◌++◌, Memᴰ, arith, ◌==◌, eq_iff, Bool-cases, length, length-append, contains,
}
use knowledgebase_storage.Links.{
  Edge, ProjectLink, upward_edges, upward, walk, fuel_for, would_cycle,
}
use knowledgebase_storage.Links.Graph.{Up, here, step}
use knowledgebase_storage.Links.Frontier.{
  unseen, length-upward, unseen-cons, unseen-le, mem-upward, mem-upward_back, waits_less,
  waits_more,
}

module _ (es : List Edge) (source : String) where
  -- with more fuel than edges to push and projects in the frontier, the walk answers
  walk_ends :
      (fuel : ℕ) (seen frontier : List String)
      → length frontier + unseen seen es < fuel
      → (b : Bool) × (walk fuel es source seen frontier ≡ some b)
  unfolding walk
  walk_ends zero seen frontier h = elim h [ ]
  walk_ends (suc fuel) seen [] h = (false, refl)
  walk_ends (suc fuel) seen (c ∷ rest) h = elim (Bool-cases (c == source)) [
    | inl found ↦ (true, rw found)
    | inr other ↦ elim (Bool-cases (contains seen c)) [
      | inl old ↦ rw (other, old) (walk_ends fuel seen rest (omega arith))
      | inr new ↦
          rw (other, new)
            (walk_ends fuel (c ∷ seen) (upward es c ++ rest) (
              omega (
                arith,
                length-append (upward es c) rest,
                length-upward es c,
                unseen-cons c seen es new,
              )))
    ]
  ]

  -- an answer `true` comes from a project of the frontier that leads up to the source
  walk_sound :
      (fuel : ℕ) (seen frontier : List String)
      → walk fuel es source seen frontier ≡ some true
      → (f : String) × Memᴰ f frontier × Up es f source
  unfolding walk
  walk_sound zero seen frontier h = absurd (cc)
  walk_sound (suc fuel) seen [] h = absurd (cc)
  walk_sound (suc fuel) seen (c ∷ rest) h = elim (Bool-cases (c == source)) [
    | inl found ↦ (c, Memᴰ.head refl, subst (Up es c) ((eq_iff c source).0 found) here)
    | inr other ↦ elim (Bool-cases (contains seen c)) [
      | inl old ↦
          let (f, m, p) = walk_sound fuel seen rest (rw (other, old, walk) at h) in
          (f, Memᴰ.tail m, p)
      | inr new ↦
          let (f, m, p) =
            walk_sound fuel (c ∷ seen) (upward es c ++ rest) (rw (other, new, walk) at h) in
          elim (Memᴰ.append_cases (upward es c) m) [
            | inl n ↦ (c, Memᴰ.head refl, step (mem-upward_back es c f n) p)
            | inr n ↦ (f, Memᴰ.tail n, p)
          ]
    ]
  ]

  -- What has been seen is not the source, and all that it leads to is seen or waits.
  record IsClosedUnder (seen frontier : List String) : Type 0 where
    pub misses : contains seen source ≡ false
    pub onward :
        (x y : String)
        → contains seen x ≡ true
        → Memᴰ (x, y) es
        → (contains seen y ≡ true) ⊎ Memᴰ y frontier

  stuck_below :
      (seen : List String)
      → IsClosedUnder seen []
      → (x : String) → Up es x source
      → contains seen x ≡ true
      → ⊥
  stuck_below seen c x here s = cc (c.misses, s)
  stuck_below seen c x (step {y = y} m p) s = elim (c.onward x y s m) [
    | inl n ↦ stuck_below seen c y p n
    | inr n ↦ Memᴰ.not-nil n
  ]

  -- the head of the frontier is passed over when it has been seen
  IsClosedUnder-skip :
      (v : String) (seen rest : List String)
      → contains seen v ≡ true
      → IsClosedUnder seen (v ∷ rest)
      → IsClosedUnder seen rest
  IsClosedUnder-skip v seen rest old c = record {
    misses = c.misses;
    onward = λ x y s m. waits_less v seen rest y old (c.onward x y s m);
  }

  IsClosedUnder-expand :
      (v : String) (seen rest : List String)
      → (v == source) ≡ false
      → IsClosedUnder seen (v ∷ rest)
      → IsClosedUnder (v ∷ seen) (upward es v ++ rest)
  IsClosedUnder-expand v seen rest other c = record {
    misses = ground (arith, c.misses);
    onward = λ x y s m. elim (Bool-cases (v == x)) [
      | inl e ↦ inr (
          Memᴰ.append_left rest
            (mem-upward es v y (subst (λ w. Memᴰ (w, y) es) (sym ((eq_iff v x).0 e)) m)))
      | inr e ↦ waits_more v seen (upward es v) rest y (c.onward x y (ground arith) m)
    ];
  }

  -- an answer `false` rules out every project seen or waiting
  walk_complete :
      (fuel : ℕ) (seen frontier : List String)
      → IsClosedUnder seen frontier
      → walk fuel es source seen frontier ≡ some false
      → (x : String) → (contains seen x ≡ true) ⊎ Memᴰ x frontier
      → ¬ Up es x source
  unfolding walk
  walk_complete zero seen frontier c h x i = absurd (cc)
  walk_complete (suc fuel) seen [] c h x i =
      λ p. elim i [ inl s ↦ stuck_below seen c x p s | inr m ↦ Memᴰ.not-nil m ]
  walk_complete (suc fuel) seen (v ∷ rest) c h x i = elim (Bool-cases (v == source)) [
    | inl found ↦ let e : some true ≡ some false = rw (found, walk) at h in absurd (cc)
    | inr other ↦ elim (Bool-cases (contains seen v)) [
      | inl old ↦
          walk_complete fuel seen rest (IsClosedUnder-skip v seen rest old c)
            (rw (other, old, walk) at h) x (waits_less v seen rest x old i)
      | inr new ↦
          walk_complete fuel (v ∷ seen) (upward es v ++ rest)
            (IsClosedUnder-expand v seen rest other c) (rw (other, new, walk) at h) x
            (waits_more v seen (upward es v) rest x i)
    ]
  ]

-- The walk of `would_cycle` ends within its fuel. It answers `true` exactly when the part_of links,
-- less those between the two projects themselves, lead from the target up to the source.
pub would_cycle_lem :
    (links : List ProjectLink) (source target : String)
    → let es = upward_edges source target links in
      (walk (fuel_for es) es source [] (target ∷ []) ≡ some (would_cycle links source target))
      × (would_cycle links source target ≡ true → Up es target source)
      × (would_cycle links source target ≡ false → ¬ Up es target source)
unfolding would_cycle
would_cycle_lem links source target =
    let es = upward_edges source target links in
    let (b, ends) =
      walk_ends es source (fuel_for es) [] (target ∷ []) (omega (arith, unseen-le es)) in
    (
      rw ends,
      λ h.
          let (f, m, p) =
            walk_sound es source (fuel_for es) [] (target ∷ [])
              (rw ends (ap some (rw ends at h))) in
          subst (λ x. Up es x source) (Memᴰ.eq_of_singleton m) p,
      λ h.
          walk_complete es source (fuel_for es) [] (target ∷ [])
            (record { misses = refl; onward = λ x y s m. absurd (cc (s)) })
            (rw ends (ap some (rw ends at h))) target (inr (Memᴰ.head refl)),
    )
