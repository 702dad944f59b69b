-- ===== src/Prompts/Seeded.antt =====
-- `seed` of backend/services/prompts.py: the default prompts, filled in where they are missing or outdated.
use knowledgebase_storage.Common.{
  ℕ, suc, ◌≡◌, refl, ◌∙◌, false, Option, some, List, [], ◌∷◌, arith, All,
}
use knowledgebase_storage.Common.Table.Laws.{All-turn}
use knowledgebase_storage.Common.Table.Distinct.{IsDistinct}
use knowledgebase_storage.Prompts.{PromptStage, Prompt, stage_eq}
use knowledgebase_storage.Prompts.Defaults.{
  Default, last_active, is_outdated, seed_one, seed_each, seed,
}
use knowledgebase_storage.Prompts.Seeding.{
  IsServed, IsOpen, seed_one-IsServed, seed_one-other, seed_one-IsOpen,
}

abbrev Defaults : Type 0
Defaults = List (PromptStage × Default)

abbrev IsOtherStage : PromptStage → PromptStage × Default → Type 0
IsOtherStage stage e = stage_eq stage e.0 ≡ false

-- what is read of each stage is the row that serves it
abbrev IsKnown : (PromptStage → Option Prompt) → List Prompt → Defaults → Type 0
IsKnown known ps ds = All (λ e. last_active e.0 ps ≡ known e.0) ds

IsKnown-seed_one :
    (fresh : ℕ → ℕ) (known : PromptStage → Option Prompt) (stage : PromptStage) (d : Default)
    (rest : Defaults) (ps : List Prompt)
    → IsOpen fresh ps
    → last_active stage ps ≡ known stage
    → All (IsOtherStage stage) rest
    → IsKnown known ps rest
    → IsKnown known (seed_one (fresh 0) stage d (known stage) ps).1 rest
IsKnown-seed_one fresh known stage d [] ps free h apart all = tt
IsKnown-seed_one fresh known stage d (e ∷ rest) ps free h apart all = (
  seed_one-other fresh stage e.0 d (known stage) ps free h apart.0 ∙ all.0,
  IsKnown-seed_one fresh known stage d rest ps free h apart.1 all.1,
)

seed_each-other :
    (fresh : ℕ → ℕ) (known : PromptStage → Option Prompt) (other : PromptStage) (ds : Defaults)
    (ps : List Prompt)
    → IsDistinct (λ a b. stage_eq a.0 b.0) ds
    → IsOpen fresh ps
    → IsKnown known ps ds
    → All (λ e. stage_eq e.0 other ≡ false) ds
    → last_active other (seed_each fresh known ds ps).1 ≡ last_active other ps
unfolding seed_each
seed_each-other fresh known other [] ps d free all apart = refl
seed_each-other fresh known other (e ∷ rest) ps d free all apart =
    let after = (seed_one (fresh 0) e.0 e.1 (known e.0) ps).1 in
    seed_each-other (λ k. fresh (suc k)) known other rest after d.1
      (seed_one-IsOpen fresh e.0 e.1 (known e.0) ps free all.0)
      (IsKnown-seed_one fresh known e.0 e.1 rest ps free all.0 d.0 all.1) apart.1
    ∙ seed_one-other fresh e.0 other e.1 (known e.0) ps free all.0 apart.0

IsServed-same :
    (stage : PromptStage) (d : Default) (ps qs : List Prompt)
    → last_active stage ps ≡ last_active stage qs
    → IsServed stage d qs
    → IsServed stage d ps
unfolding IsServed
IsServed-same stage d ps qs e (p, h, current) = (p, e ∙ h, current)

seed_each-IsServed :
    (fresh : ℕ → ℕ) (known : PromptStage → Option Prompt) (ds : Defaults) (ps : List Prompt)
    → IsDistinct (λ a b. stage_eq a.0 b.0) ds
    → IsOpen fresh ps
    → IsKnown known ps ds
    → All (λ e. IsServed e.0 e.1 (seed_each fresh known ds ps).1) ds
unfolding seed_each
seed_each-IsServed fresh known [] ps d free all = tt
seed_each-IsServed fresh known (e ∷ rest) ps d free all =
    let after = (seed_one (fresh 0) e.0 e.1 (known e.0) ps).1 in
    let opened = seed_one-IsOpen fresh e.0 e.1 (known e.0) ps free all.0 in
    let read = IsKnown-seed_one fresh known e.0 e.1 rest ps free all.0 d.0 all.1 in
    (
      IsServed-same e.0 e.1 _ after
          (seed_each-other (λ k. fresh (suc k)) known e.0 rest after d.1 opened read
            (All-turn (IsOtherStage e.0) (λ r. stage_eq r.0 e.0 ≡ false) (λ r h. ground (arith, h))
              rest d.0))
          (seed_one-IsServed fresh e.0 e.1 (known e.0) ps free all.0),
      seed_each-IsServed (λ k. fresh (suc k)) known rest after d.1 opened read,
    )

-- where every stage is served, nothing is written
seed_each-still :
    (fresh : ℕ → ℕ) (known : PromptStage → Option Prompt) (ds : Defaults) (ps : List Prompt)
    → All (λ e. (p : Prompt) × (known e.0 ≡ some p) × (is_outdated e.1 p ≡ false)) ds
    → seed_each fresh known ds ps ≡ (0, ps)
unfolding seed_each seed_one
seed_each-still fresh known [] ps all = refl
seed_each-still fresh known (e ∷ rest) ps all =
    let (p, h, current) = all.0 in
    rw (h, current, seed_each-still (λ k. fresh (suc k)) known rest ps all.1) refl

IsKnown-itself : (ds : Defaults) (ps : List Prompt) → IsKnown (λ stage. last_active stage ps) ps ds
IsKnown-itself [] ps = tt
IsKnown-itself (e ∷ ds) ps = (refl, IsKnown-itself ds ps)

-- After `seed`, with defaults of different stages, rows of different identifiers, and new ones for what is
-- made: every stage of the defaults has a prompt in use, which someone edited or which is as the default
-- says, and a second `seed` makes nothing and changes nothing.
pub seed_lem :
    (fresh later : ℕ → ℕ) (ds : List (PromptStage × Default)) (ps : List Prompt)
    → IsDistinct (λ a b. stage_eq a.0 b.0) ds
    → IsOpen fresh ps
    → let after = (seed fresh ds ps).1 in
      All (λ e. IsServed e.0 e.1 after) ds × (seed later ds after ≡ (0, after))
unfolding seed
seed_lem fresh later ds ps d free =
    let after = (seed fresh ds ps).1 in
    let served =
      seed_each-IsServed fresh (λ stage. last_active stage ps) ds ps d free
        (IsKnown-itself ds ps) in
    (
      served,
      seed_each-still later (λ stage. last_active stage after) ds after (unfold IsServed in served),
    )
