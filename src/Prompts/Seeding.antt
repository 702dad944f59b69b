-- ===== src/Prompts/Seeding.antt =====
-- One stage of `seed` of backend/services/prompts.py.
use knowledgebase_storage.Common.{
  ℕ, suc, ◌≡◌, refl, subst, ◌≢◌, inl, inr, true, false, Option, none, some, List, arith, eqb,
  Bool-cases, All,
}
use knowledgebase_storage.Common.Table.{put}
use knowledgebase_storage.Common.Table.Laws.{All-put, All-get, All-turn, All-members}
use knowledgebase_storage.Common.Table.Distinct.{IsDistinct, IsDistinct-put, distinct_eq}
use knowledgebase_storage.Prompts.{PromptStage, Prompt, stage_eq, serves, save_prompt}
use knowledgebase_storage.Prompts.Defaults.{
  Default, with_default, last_active, seeded, is_outdated, seed_one,
}
use knowledgebase_storage.Prompts.Serving.{
  same_id, seeded-IsCurrent, updated-IsCurrent, last_active_lem, last_active-put_fresh,
  last_active-put_other, last_active-put_same,
}

-- A stage is served by a prompt that someone edited or that is as the default says.
unfoldable pub IsServed : PromptStage → Default → List Prompt → Type 0
IsServed stage d ps = (p : Prompt) × (last_active stage ps ≡ some p) × (is_outdated d p ≡ false)

-- The rows have different identifiers, and those that are handed out are new.
pub record IsOpen (fresh : ℕ → ℕ) (ps : List Prompt) : Type 0 where
  pub ids : IsDistinct same_id ps
  pub new : All (λ p. (k : ℕ) → eqb (fresh k) p.id ≡ false) ps
  pub apart : (j k : ℕ) → j ≢ k → eqb (fresh j) (fresh k) ≡ false

pub seed_one-IsServed :
    (fresh : ℕ → ℕ) (stage : PromptStage) (d : Default) (current : Option Prompt) (ps : List Prompt)
    → IsOpen fresh ps
    → last_active stage ps ≡ current
    → IsServed stage d (seed_one (fresh 0) stage d current ps).1
unfolding seed_one save_prompt IsServed seeded
seed_one-IsServed fresh stage d none ps free h = (
  seeded (fresh 0) stage d,
  last_active-put_fresh (seeded (fresh 0) stage d) ps (unfold seeded in ground arith)
      (All-turn (λ p. (k : ℕ) → eqb (fresh k) p.id ≡ false) _ (λ p n. n 0) ps free.new),
  seeded-IsCurrent (fresh 0) stage d,
)
seed_one-IsServed fresh stage d (some p) ps free h = elim (Bool-cases (is_outdated d p)) [
  | inl e ↦
      let x : Prompt = record p { text = with_default d p.text } in
      rw e (
        x,
        last_active-put_same stage x p ps free.ids h refl (last_active_lem stage ps p h).1,
        updated-IsCurrent d p,
      )
  | inr e ↦ rw e (p, h, e)
]

serves_apart :
    (stage other : PromptStage) (p : Prompt)
    → serves stage p ≡ true
    → stage_eq stage other ≡ false
    → serves other p ≡ false
serves_apart stage other p h apart = ground (arith, h, apart)

same_id_sym : (a b : Prompt) → same_id a b ≡ true → same_id b a ≡ true
same_id_sym a b h = ground arith

same_id_trans : (a b c : Prompt) → same_id a b ≡ true → same_id b c ≡ true → same_id a c ≡ true
same_id_trans a b c h k = ground arith

pub seed_one-other :
    (fresh : ℕ → ℕ) (stage other : PromptStage) (d : Default) (current : Option Prompt)
    (ps : List Prompt)
    → IsOpen fresh ps
    → last_active stage ps ≡ current
    → stage_eq stage other ≡ false
    → last_active other (seed_one (fresh 0) stage d current ps).1 ≡ last_active other ps
unfolding seed_one save_prompt seeded
seed_one-other fresh stage other d none ps free h apart =
    last_active-put_other other (seeded (fresh 0) stage d) ps
      (unfold seeded in ground (arith, apart))
      (All-turn (λ p. (k : ℕ) → eqb (fresh k) p.id ≡ false) _
        (λ p n same.
          absurd (let taken : eqb (fresh 0) p.id ≡ true = unfold seeded in same in cc (taken, n 0)))
        ps free.new)
seed_one-other fresh stage other d (some p) ps free h apart = elim (Bool-cases (is_outdated d p)) [
  | inl e ↦ rw e (
      let (there, serving) = last_active_lem stage ps p h in
      let x : Prompt = record p { text = with_default d p.text } in
      last_active-put_other other x ps (serves_apart stage other p serving apart) (
        All-members (λ z. same_id x z ≡ true → serves other z ≡ false) ps
          (λ z m same.
            subst (λ (w : Prompt). serves other w ≡ false)
              (distinct_eq same_id same_id_sym ps p z free.ids there m same)
              (serves_apart stage other p serving apart))))
  | inr e ↦ rw e refl
]

later_new :
    (fresh : ℕ → ℕ) (ps : List Prompt)
    → IsOpen fresh ps
    → All (λ p. (k : ℕ) → eqb (fresh (suc k)) p.id ≡ false) ps
later_new fresh ps free =
    All-turn (λ p. (k : ℕ) → eqb (fresh k) p.id ≡ false) _ (λ p n k. n (suc k)) ps free.new

later_apart :
    (fresh : ℕ → ℕ) (ps : List Prompt)
    → IsOpen fresh ps
    → (j k : ℕ) → j ≢ k
    → eqb (fresh (suc j)) (fresh (suc k)) ≡ false
later_apart fresh ps free j k ne = free.apart (suc j) (suc k) (λ e. ne (omega (arith, e)))

put-IsOpen :
    (fresh : ℕ → ℕ) (x : Prompt) (ps : List Prompt)
    → IsOpen fresh ps
    → ((k : ℕ) → eqb (fresh (suc k)) x.id ≡ false)
    → IsOpen (λ k. fresh (suc k)) (put same_id x ps)
put-IsOpen fresh x ps free own = record {
  ids = IsDistinct-put same_id same_id_sym same_id_trans x ps free.ids;
  new =
      All-put (λ p. (k : ℕ) → eqb (fresh (suc k)) p.id ≡ false) same_id x ps own
        (later_new fresh ps free);
  apart = later_apart fresh ps free;
}

pub seed_one-IsOpen :
    (fresh : ℕ → ℕ) (stage : PromptStage) (d : Default) (current : Option Prompt) (ps : List Prompt)
    → IsOpen fresh ps
    → last_active stage ps ≡ current
    → IsOpen (λ k. fresh (suc k)) (seed_one (fresh 0) stage d current ps).1
unfolding seed_one save_prompt
seed_one-IsOpen fresh stage d none ps free h =
    put-IsOpen fresh (seeded (fresh 0) stage d) ps free
      (λ k. unfold seeded in free.apart (suc k) 0 (λ e. absurd (omega (arith, e))))
seed_one-IsOpen fresh stage d (some p) ps free h = elim (Bool-cases (is_outdated d p)) [
  | inl e ↦ rw e (
      put-IsOpen fresh (record p { text = with_default d p.text }) ps free
        (All-get (λ p. (k : ℕ) → eqb (fresh (suc k)) p.id ≡ false) ps p (later_new fresh ps free)
          (last_active_lem stage ps p h).0))
  | inr e ↦
      rw e (record {
        ids = free.ids;
        new = later_new fresh ps free;
        apart = later_apart fresh ps free;
      })
]
