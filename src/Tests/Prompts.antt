-- ===== src/Tests/Prompts.antt =====
-- Two prompts of one stage: the second is activated in place of the first.
use knowledgebase_storage.Common.{
  All, ◌+◌, ◌≢◌, false, arith, ℕ, ◌≡◌, refl, true, none, some, List, [], ◌∷◌, eqb,
}
use knowledgebase_storage.Common.Result.{ok}
use knowledgebase_storage.Common.Table.{first}
use knowledgebase_storage.Prompts.{
  Prompt, PromptText, PromptStatus, session_final, draft, active, active_of, activate, PromptStage,
  stage_eq, session_split, built_in,
}
use knowledgebase_storage.Prompts.Defaults.{Default, seed, differs, filled}
use knowledgebase_storage.Prompts.Seeding.{IsServed}
use knowledgebase_storage.Prompts.Seeded.{seed_lem}
use knowledgebase_storage.Prompts.Active.{OnlyServer, activate_lem}

abbrev short : PromptText
short = record {
  system = "be brief";
  instruction = "";
  thinking = true;
  temperature = 20;
  max_tokens = 20000;
}

abbrev version : ℕ → PromptStatus → Prompt
version id status = record {
  id = id;
  stage = session_final;
  label = "edited";
  text = short;
  status = status;
  parent_id = none;
}

abbrev versions : List Prompt
versions = version 1 active ∷ version 2 draft ∷ []

second_found : first (λ (q : Prompt). eqb q.id 2) versions ≡ some (version 2 draft)
unfolding first
second_found = refl

activate_lem_example :
    (after : List Prompt) × (activate 2 versions ≡ ok (version 2 active, after))
    × (active_of session_final after ≡ some (version 2 active))
    × OnlyServer session_final 2 after
    × ((other : PromptStage)
        → stage_eq session_final other ≡ false
        → active_of other after ≡ active_of other versions)
activate_lem_example = activate_lem 2 versions (version 2 draft) second_found

-- The defaults of two stages: the prompt in use of one is outdated, and the other has none.
abbrev defaults : List (PromptStage × Default)
defaults =
    (session_final, record { system = "be exact"; max_tokens = none })
    ∷ (session_split, record { system = "split"; max_tokens = some 8192 })
    ∷ []

abbrev old_built_in : List Prompt
old_built_in = record (version 1 active) { label = built_in } ∷ []

abbrev new_ids : ℕ → ℕ
new_ids n = 10 + n

both_seeded : (seed new_ids defaults old_built_in).0 ≡ 2
unfolding seed differs
both_seeded = refl

edited_stays : (seed new_ids defaults versions).0 ≡ 1
unfolding seed differs
edited_stays = refl

ten_apart : (j k : ℕ) → j ≢ k → eqb (10 + j) (10 + k) ≡ false
ten_apart j k ne = ground (arith, ne)

seed_lem_example :
    let after = (seed new_ids defaults old_built_in).1 in
    All (λ e. IsServed e.0 e.1 after) defaults × (seed (λ n. n) defaults after ≡ (0, after))
seed_lem_example =
    seed_lem new_ids (λ n. n) defaults old_built_in ((refl, tt), (tt, tt))
      (record { ids = (tt, tt); new = ((λ k. ground arith), tt); apart = ten_apart })

in_korean : filled "ko" 0 "answer in {language}." ≡ "answer in ko."
unfolding filled
in_korean = refl
