-- ===== src/Prompts.antt =====
-- backend/services/prompts.py and backend/repositories/prompt.py: the versions of each stage's prompt,
-- of which one is in use. A temperature is in hundredths.
pub mod Active
pub mod Defaults
pub mod Serving
pub mod Seeding
pub mod Seeded
use Prim.Native.String as Text
use mathlib.Core.Option
use knowledgebase_storage.Names.{begins}
use knowledgebase_storage.Common.{
  ℕ, zero, suc, ◌+◌, ◌-◌, ◌*◌, ◌/◌, ◌%◌, ◌^◌, ◌≤◌, ◌<◌, min, max, String, ◌≡◌, refl, sym, ap, ◌∙◌,
  subst, ◌≢◌, ◌↔◌, ◌⊎◌, inl, inr, Bool, true, false, not, ◌&&◌, ◌||◌, Option, none, some, List, [],
  ◌∷◌, ◌++◌, map, reverse, Memᴰ, arith, ◌==◌, eq_iff, eq_refl, ltb, leb, eqb, if◌then◌else◌,
  Bool-cases, Option-cases, is_none, is_some, holds_text, or_text, take_text, ◌<>◌, length,
  length-append, take, All, keep, contains,
}
use knowledgebase_storage.Common.Result.{Result, ok, raised, resource_not_found, ◌>>=◌}
use knowledgebase_storage.Common.Table.{first, put, update_where}

pub data PromptStage : Type 0 where
  session_explore session_chunk session_final session_verify session_split : PromptStage
  project_overview project_link memory_merge note_relations : PromptStage

pub data PromptStatus : Type 0 where
  draft active archived : PromptStatus

abbrev pub stage_number : PromptStage → ℕ
stage_number session_explore = 0
stage_number session_chunk = 1
stage_number session_final = 2
stage_number session_verify = 3
stage_number session_split = 4
stage_number project_overview = 5
stage_number project_link = 6
stage_number memory_merge = 7
stage_number note_relations = 8

abbrev pub stage_eq : PromptStage → PromptStage → Bool
stage_eq a b = eqb (stage_number a) (stage_number b)

abbrev pub is_active : PromptStatus → Bool
is_active active = true
is_active _ = false

abbrev pub is_draft : PromptStatus → Bool
is_draft draft = true
is_draft _ = false

-- What a prompt says, and how it is run.
pub record PromptText : Type 0 where
  pub system : String
  pub instruction : String
  pub thinking : Bool
  pub temperature : ℕ
  pub max_tokens : ℕ

pub record Prompt : Type 0 where
  pub id : ℕ
  pub stage : PromptStage
  pub label : String
  pub text : PromptText
  pub status : PromptStatus
  pub parent_id : Option ℕ

abbrev pub built_in : String
built_in = "built-in"

abbrev pub edited : String
edited = "edited"

unfoldable pub save_prompt : Prompt → List Prompt → List Prompt
unfolding put
save_prompt prompt prompts = put (λ a b. eqb a.id b.id) prompt prompts

abbrev pub serves : PromptStage → Prompt → Bool
serves stage p = stage_eq p.stage stage && is_active p.status

unfoldable pub active_of : PromptStage → List Prompt → Option Prompt
unfolding first
active_of stage prompts = first (serves stage) prompts

-- The other prompts of the stage that are in use are put away.
unfoldable pub retire : PromptStage → (keep_id : ℕ) → List Prompt → List Prompt
unfolding update_where
retire stage keep_id prompts =
    update_where (λ p. serves stage p && not (eqb p.id keep_id))
      (λ p. record p { status = archived }) prompts

abbrev pub label_of : String → String
label_of label = if label == built_in then edited else label

abbrev pub id_of : Option Prompt → Option ℕ
id_of none = none
id_of (some p) = some p.id

unfoldable pub draft_of :
    (id : ℕ) → PromptStage → (label : String) → PromptText → List Prompt → Prompt × List Prompt
unfolding save_prompt active_of
draft_of id stage label text prompts =
    let made : Prompt = record {
      id = id;
      stage = stage;
      label = label_of label;
      text = text;
      status = draft;
      parent_id = id_of (active_of stage prompts);
    } in
    (made, save_prompt made prompts)

unfoldable pub activated : Option Prompt → List Prompt → Result (Prompt × List Prompt)
unfolding save_prompt retire
activated none prompts = raised resource_not_found
activated (some p) prompts =
    let saved = record p { status = active } in
    ok (saved, retire saved.stage saved.id (save_prompt saved prompts))

unfoldable pub activate : (prompt_id : ℕ) → List Prompt → Result (Prompt × List Prompt)
unfolding activated first
activate prompt_id prompts = activated (first (λ p. eqb p.id prompt_id) prompts) prompts
