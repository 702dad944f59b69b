-- ===== src/Prompts/Defaults.antt =====
-- The prompts that backend/services/prompts.py fills in: `seed`, with what it precedes, and `resolved`. The defaults
-- of backend/consts/prompts.py are a list of stages with their texts. `fresh` gives the identifiers of the
-- prompts that are made.
use Prim.Native.String as Text
use mathlib.Core.Option
use knowledgebase_storage.Names.{begins}
use knowledgebase_storage.Common.{
  ℕ, zero, suc, String, Bool, true, false, not, ◌&&◌, ◌||◌, Option, none, some, List, [], ◌∷◌, ◌==◌,
  eqb, if◌then◌else◌, is_none, ◌<>◌,
}
use knowledgebase_storage.Common.Result.{Result, ok, raised, resource_not_found}
use knowledgebase_storage.Common.Table.{first}
use knowledgebase_storage.Prompts.{
  PromptStage, is_draft, PromptText, Prompt, built_in, save_prompt, serves, label_of, draft_of,
  active,
}

-- What DEFAULTS says of a stage.
pub record Default : Type 0 where
  pub system : String
  pub max_tokens : Option ℕ

abbrev pub or_tokens : Option ℕ → ℕ → ℕ
or_tokens none n = n
or_tokens (some tokens) n = tokens

-- `sqlmodel_update(defaults)`
abbrev pub with_default : Default → PromptText → PromptText
with_default d text = record text {
  system = d.system;
  max_tokens = or_tokens d.max_tokens text.max_tokens;
}

-- `any(getattr(current, key) != value for key, value in defaults.items())`
unfoldable pub differs : Default → PromptText → Bool
differs d text =
    not (text.system == d.system)
    || not (eqb text.max_tokens (or_tokens d.max_tokens text.max_tokens))

-- `PromptBase`, less what a default says
abbrev pub plain_text : PromptText
plain_text = record {
  system = "";
  instruction = "";
  thinking = true;
  temperature = 20;
  max_tokens = 20000;
}

abbrev pub or_later : Option Prompt → Option Prompt → Option Prompt
or_later none p = p
or_later (some q) p = some q

-- `all_active().get(stage)`: a later row takes the place of an earlier one
unfoldable pub last_active : PromptStage → List Prompt → Option Prompt
last_active stage [] = none
last_active stage (p ∷ ps) =
    or_later (last_active stage ps) (if serves stage p then some p else none)

-- `Prompt.model_validate(…)`
unfoldable pub seeded : (id : ℕ) → PromptStage → Default → Prompt
seeded id stage d = record {
  id = id;
  stage = stage;
  label = built_in;
  text = with_default d plain_text;
  status = active;
  parent_id = none;
}

-- a prompt that nobody edited and that is not as the default says
unfoldable pub is_outdated : Default → Prompt → Bool
unfolding differs
is_outdated d p = p.label == built_in && is_none p.parent_id && differs d p.text

unfoldable pub seed_one :
    (id : ℕ) → PromptStage → Default → Option Prompt → List Prompt → Bool × List Prompt
unfolding seeded save_prompt is_outdated
seed_one id stage d none prompts = (true, save_prompt (seeded id stage d) prompts)
seed_one id stage d (some p) prompts =
    let updated = save_prompt (record p { text = with_default d p.text }) prompts in
    if is_outdated d p then (true, updated) else (false, prompts)

unfoldable pub seed_each :
    (fresh : ℕ → ℕ)
    → (known : PromptStage → Option Prompt) → List (PromptStage × Default)
    → List Prompt
    → ℕ × List Prompt
unfolding seed_one
seed_each fresh known [] prompts = (0, prompts)
seed_each fresh known ((stage, d) ∷ rest) prompts =
    let (made, after) = seed_one (fresh 0) stage d (known stage) prompts in
    let (n, last) = seed_each (λ k. fresh (suc k)) known rest after in
    (if made then suc n else n, last)

unfoldable pub seed : (fresh : ℕ → ℕ) → List (PromptStage × Default) → List Prompt → ℕ × List Prompt
unfolding seed_each last_active
seed fresh defaults prompts = seed_each fresh (λ stage. last_active stage prompts) defaults prompts

module _ (fresh : ℕ → ℕ) (defaults : List (PromptStage × Default)) where
  unfoldable pub draft_prompt :
      (id : ℕ) → PromptStage → (label : String) → PromptText → List Prompt → Prompt × List Prompt
  unfolding draft_of seed
  draft_prompt id stage label text prompts =
      draft_of id stage label text (seed fresh defaults prompts).1

  -- `amend`, with the label and the text that the update leaves: a prompt that was in use is not written
  -- over, a draft is made instead
  unfoldable pub amended :
      (id : ℕ) (label : String)
      → PromptText
      → Option Prompt
      → List Prompt
      → Result (Prompt × List Prompt)
  unfolding draft_prompt save_prompt
  amended id label text none prompts = raised resource_not_found
  amended id label text (some p) prompts =
      let changed = record p { label = label_of label; text = text } in
      let made = draft_prompt id p.stage label text prompts in
      if is_draft p.status then ok (changed, save_prompt changed prompts) else ok made

  unfoldable pub amend :
      (id prompt_id : ℕ) (label : String) → PromptText → List Prompt → Result (Prompt × List Prompt)
  unfolding amended first
  amend id prompt_id label text prompts =
      amended id label text (first (λ p. eqb p.id prompt_id) prompts) prompts

-- `s.replace("{language}", language)`; `skip` characters belong to a mark that was replaced
unfoldable pub filled : (language : String) → (skip : ℕ) → String → String
unfolding begins
filled language skip Text.[] = ""
filled language (suc skip) (Text.◌∷◌ c s) = filled language skip s
filled language zero (Text.◌∷◌ c s) =
    let named = language <> filled language 9 s in
    let kept = Text.◌∷◌ c (filled language 0 s) in
    if begins (Text.◌∷◌ c s) "{language}" then named else kept

unfoldable pub in_language : String → PromptText → PromptText
unfolding filled
in_language language text = record text {
  system = filled language 0 text.system;
  instruction = filled language 0 text.instruction;
}

-- `resolved`, of one stage
unfoldable pub resolved :
    (fresh : ℕ → ℕ)
    → List (PromptStage × Default)
    → (language : String) → PromptStage
    → List Prompt
    → Option (ℕ × PromptText)
unfolding seed last_active in_language
resolved fresh defaults language stage prompts =
    Option.map (λ p. (p.id, in_language language p.text))
      (last_active stage (seed fresh defaults prompts).1)
