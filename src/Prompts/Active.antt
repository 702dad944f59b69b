-- ===== src/Prompts/Active.antt =====
-- The prompt in use of each stage: `activate` of backend/services/prompts.py and `retire` of
-- backend/repositories/prompt.py.
use knowledgebase_storage.Common.{
  ℕ, ◌≡◌, refl, ap, ◌∙◌, inl, inr, true, false, not, ◌&&◌, some, List, [], ◌∷◌, arith, eqb,
  if◌then◌else◌, Bool-cases, All,
}
use knowledgebase_storage.Common.Result.{ok}
use knowledgebase_storage.Common.Table.{first, put, update_where}
use knowledgebase_storage.Common.Table.Laws.{All-update_where_turn, first_passes}
use knowledgebase_storage.Prompts.{
  PromptStage, stage_eq, Prompt, active, archived, is_active, serves, save_prompt, retire,
  active_of, activated, activate,
}

-- After an activation, what serves the stage is the row of that identifier.
abbrev pub OnlyServer : PromptStage → ℕ → List Prompt → Type 0
OnlyServer stage id prompts = All (λ p. serves stage p ≡ true → p.id ≡ id) prompts

All-any : {P : Prompt → Type 0} → ((p : Prompt) → P p) → (xs : List Prompt) → All P xs
All-any f [] = tt
All-any f (x ∷ xs) = (f x, All-any f xs)

retire-OnlyServer :
    (stage : PromptStage) (id : ℕ) (prompts : List Prompt)
    → OnlyServer stage id (retire stage id prompts)
unfolding retire
retire-OnlyServer stage id prompts =
    All-update_where_turn (λ _. Unit {0}) (λ p. serves stage p ≡ true → p.id ≡ id)
      (λ p. serves stage p && not (eqb p.id id)) (λ p. record p { status = archived }) prompts
      (λ p e _ h. absurd (ground (arith, h))) (λ p e _ h. ground (arith, e, h))
      (All-any (λ p. tt) prompts)

serves_itself : (p : Prompt) → p.status ≡ active → serves p.stage p ≡ true
serves_itself p a = let h : is_active p.status ≡ true = ap is_active a in ground (arith, h)

id_itself : (n : ℕ) → eqb n n ≡ true
id_itself n = ground arith

other_id : (a b : ℕ) → eqb a b ≡ false → eqb b a ≡ false
other_id a b h = ground arith

-- a row of another identifier serves the stage no more
retired-serves :
    (p q : Prompt)
    → eqb q.id p.id ≡ false
    → serves p.stage
        (if serves p.stage q && not (eqb q.id p.id) then record q { status = archived } else q)
      ≡ false
retired-serves p q i = elim (Bool-cases (serves p.stage q)) [
  | inl e ↦ rw (e, i) (ground arith)
  | inr e ↦ rw (e) e
]

-- the row that was activated is in use
active_of-activated :
    (p : Prompt) (prompts : List Prompt)
    → p.status ≡ active
    → active_of p.stage (retire p.stage p.id (save_prompt p prompts)) ≡ some p
unfolding active_of retire save_prompt first update_where put
active_of-activated p [] a = rw (serves_itself p a, id_itself p.id) (rw (serves_itself p a) refl)
active_of-activated p (q ∷ qs) a = elim (Bool-cases (eqb p.id q.id)) [
  | inl e ↦ rw (e, serves_itself p a, id_itself p.id) (rw (serves_itself p a) refl)
  | inr e ↦ rw (e, retired-serves p q (other_id p.id q.id e)) (active_of-activated p qs a)
]

not_serving :
    (stage other : PromptStage) (q : Prompt)
    → stage_eq stage other ≡ false
    → serves stage q ≡ true
    → serves other q ≡ false
not_serving stage other q apart h = ground (arith, apart, h)

-- the prompts of another stage are not put away
active_of-retire :
    (stage other : PromptStage) (id : ℕ) (prompts : List Prompt)
    → stage_eq stage other ≡ false
    → active_of other (retire stage id prompts) ≡ active_of other prompts
unfolding active_of retire first update_where
active_of-retire stage other id [] apart = refl
active_of-retire stage other id (q ∷ qs) apart =
    let later = active_of-retire stage other id qs apart in
    elim (Bool-cases (serves stage q && not (eqb q.id id))) [
      | inl e ↦
          let skipped = not_serving stage other q apart (ground (arith, e)) in
          let gone : serves other (record q { status = archived }) ≡ false = ground arith in
          rw (e, skipped) (rw gone later)
      | inr e ↦ rw (e, later) refl
    ]

-- the row that is saved is the one that was found, and serves no other stage
active_of-save_prompt :
    (prompt_id : ℕ) (other : PromptStage) (prompts : List Prompt) (p : Prompt)
    → first (λ q. eqb q.id prompt_id) prompts ≡ some p
    → stage_eq p.stage other ≡ false
    → active_of other (save_prompt (record p { status = active }) prompts) ≡ active_of other prompts
unfolding active_of save_prompt first put
active_of-save_prompt prompt_id other [] p h apart = absurd (cc)
active_of-save_prompt prompt_id other (q ∷ qs) p h apart = elim (Bool-cases (eqb q.id prompt_id)) [
  | inl e ↦
      let found : some q ≡ some p = rw e at h in
      let same : q ≡ p = cc in
      let not_p : stage_eq p.stage other && is_active p.status ≡ false = ground (arith, apart) in
      let not_saved : stage_eq p.stage other && true ≡ false = ground (arith, apart) in
      rw (same, id_itself p.id, not_saved, not_p) refl
  | inr e ↦
      let found : first (λ q. eqb q.id prompt_id) qs ≡ some p = rw e at h in
      let its : eqb p.id prompt_id ≡ true = first_passes (λ q. eqb q.id prompt_id) qs found in
      let differs : eqb p.id q.id ≡ false = ground (arith, e, its) in
      rw (differs, active_of-save_prompt prompt_id other qs p found apart) refl
]

-- `activate` of a prompt that is there: that prompt serves its stage and says what it said before, no other
-- prompt serves the stage, and what serves each other stage stays.
pub activate_lem :
    (prompt_id : ℕ) (prompts : List Prompt) (p : Prompt)
    → first (λ q. eqb q.id prompt_id) prompts ≡ some p
    → let saved : Prompt = record p { status = active } in
      (after : List Prompt) × (activate prompt_id prompts ≡ ok (saved, after))
      × (active_of p.stage after ≡ some saved)
      × OnlyServer p.stage p.id after
      × ((other : PromptStage)
          → stage_eq p.stage other ≡ false
          → active_of other after ≡ active_of other prompts)
unfolding activate activated
activate_lem prompt_id prompts p f =
    let saved : Prompt = record p { status = active } in
    (
      retire p.stage p.id (save_prompt saved prompts),
      rw f refl,
      active_of-activated saved prompts refl,
      retire-OnlyServer p.stage p.id (save_prompt saved prompts),
      λ other apart.
          active_of-retire p.stage other p.id (save_prompt saved prompts) apart
          ∙ active_of-save_prompt prompt_id other prompts p f apart,
    )
