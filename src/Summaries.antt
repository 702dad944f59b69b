-- ===== src/Summaries.antt =====
-- backend/summarizers/prompt.py and `Summarizer.fold` of backend/summarizers/base.py: how a transcript is
-- cut into chunks that fit a provider's budget, and how partial summaries are folded into one. The
-- provider is a parameter: `complete` answers a prompt, `shaped` answers the last one, for a schema. The
-- budget is a natural number, and the quotient of two whole numbers by 2.0 is exact.
pub mod Chunks
pub mod Folding
use Prim.Native.Char.{Char}
use mathlib.Core.Option
use knowledgebase_storage.Common.{
  ℕ, zero, suc, ◌+◌, ◌-◌, ◌*◌, ◌/◌, max, String, Bool, not, ◌&&◌, Option, none, some, List, [], ◌∷◌,
  ◌++◌, map, ltb, leb, if◌then◌else◌, ◌<>◌, length, is_empty,
}
use knowledgebase_storage.Common.Texts.{text_length, join, pieces}
use knowledgebase_storage.Names.{CharTables, strip}
use knowledgebase_storage.Models.Json.{
  Json, Items, end_items, item, Fields, text, array, object, Message, get,
}
use knowledgebase_storage.Queue.Service.{str}

abbrev pub max_background_chars : ℕ
max_background_chars = 4000

abbrev pub max_reduce_rounds : ℕ
max_reduce_rounds = 5

unfoldable pub estimate_tokens : String → ℕ
unfolding text_length
estimate_tokens s = text_length s / 2 + 1

-- `size` of `split_text`
abbrev pub size_for : ℕ → ℕ
size_for budget_tokens = max ((budget_tokens - 1) * 2) 1

unfoldable pub split_text : String → (budget_tokens : ℕ) → List String
unfolding estimate_tokens pieces
split_text s budget_tokens =
    if leb (estimate_tokens s) budget_tokens
    then s ∷ []
    else pieces (text_length s) (size_for budget_tokens) s

-- `xs[0]`, or an error
abbrev pub head {ℓ} : {A : Type ℓ} → List A → Option A
head [] = none
head (p ∷ ps) = some p

unfoldable pub first_that_fits : String → (budget_tokens : ℕ) → Option String
unfolding split_text
first_that_fits s budget_tokens = head (split_text s budget_tokens)

-- The variables of `chunk_transcript`.
pub record Chunking : Type 0 where
  pub chunks : List String
  pub current : List Message
  pub current_tokens : ℕ

module _ (u : CharTables) (shown : Json → String) where
  -- `str(block.get("text", ""))` of the blocks that are objects
  unfoldable pub block_texts : Items → List String
  unfolding get str
  block_texts end_items = []
  block_texts (item (object block) rest) = str shown (get "text" block) ∷ block_texts rest
  block_texts (item _ rest) = block_texts rest

  unfoldable pub content_text : Option Json → String
  unfolding block_texts join str
  content_text (some (array blocks)) = join "\n" (block_texts blocks)
  content_text content = str shown content

  -- `str(message.get("role", "unknown"))`
  unfoldable pub role_text : Option Json → String
  unfolding str
  role_text none = "unknown"
  role_text (some role) = str shown (some role)

  unfoldable pub render_message : Message → String
  unfolding content_text role_text get strip
  render_message message =
      strip u.is_space (
        "### "
        <> (role_text (get "role" message) <> ("\n" <> content_text (get "content" message))))

  unfoldable pub render_transcript : List Message → String
  unfolding render_message join
  render_transcript messages = join "\n\n" (map render_message messages)

  unfoldable pub flush : (budget_tokens : ℕ) → Chunking → Chunking
  unfolding render_transcript split_text
  flush budget_tokens c = if is_empty c.current then c else record {
    chunks = c.chunks ++ split_text (render_transcript c.current) budget_tokens;
    current = [];
    current_tokens = 0;
  }

  -- One round of the loop over the messages.
  unfoldable pub add_message : (budget_tokens : ℕ) → Chunking → Message → Chunking
  unfolding flush render_transcript split_text estimate_tokens
  add_message budget_tokens c message =
      let alone = render_transcript (message ∷ []) in
      let tokens = estimate_tokens alone in
      let flushed = flush budget_tokens c in
      let held =
        if not (is_empty c.current) && ltb budget_tokens (c.current_tokens + tokens)
        then flushed
        else c in
      if ltb budget_tokens tokens
      then record flushed { chunks = flushed.chunks ++ split_text alone budget_tokens }
      else record held {
        current = held.current ++ (message ∷ []);
        current_tokens = held.current_tokens + tokens;
      }

  unfoldable pub add_messages : (budget_tokens : ℕ) → Chunking → List Message → Chunking
  unfolding add_message
  add_messages budget_tokens c [] = c
  add_messages budget_tokens c (m ∷ ms) =
      add_messages budget_tokens (add_message budget_tokens c m) ms

  unfoldable pub chunk_transcript : List Message → (budget_tokens : ℕ) → List String
  unfolding flush add_messages
  chunk_transcript messages budget_tokens =
      (flush budget_tokens (
        add_messages budget_tokens (record { chunks = []; current = []; current_tokens = 0 })
          messages)).chunks

unfoldable pub build_user_prompt : (instruction body context : String) → String
build_user_prompt instruction body context =
    instruction <> ("\n" <> (context <> ("\n\n---\n\n" <> body)))

pub record Recipe : Type 0 where
  pub system : String
  pub context : String
  pub single : String
  pub mapped : String
  pub reduced : String

-- The variables of `fold` after its loop.
pub record Reduced : Type 0 where
  pub instruction : String
  pub body : String
  pub chunks : List String

-- `body = chunks[0] if chunks else body`
abbrev pub body_of : Reduced → String
body_of r = elim (head r.chunks) [ none ↦ r.body | some chunk ↦ chunk ]

module _ (complete : (system user : String) → String) (recipe : Recipe) where
  -- the partial summaries of one round, with a rule between them
  unfoldable pub partials : List String → String
  unfolding build_user_prompt join
  partials chunks = join "\n\n---\n\n" (
      map (λ chunk. complete recipe.system (build_user_prompt recipe.mapped chunk recipe.context))
        chunks)

  -- `none` is the `RuntimeError`
  unfoldable pub reduce : (rounds budget : ℕ) → Reduced → Option Reduced
  unfolding partials split_text
  reduce zero budget r = if ltb 1 (length r.chunks) then none else some r
  reduce (suc rounds) budget r =
      let body = partials r.chunks in
      let next =
        reduce rounds budget
          (record { instruction = recipe.reduced; body = body; chunks = split_text body budget }) in
      if leb (length r.chunks) 1 then some r else next

  -- the prompt that the summary is the answer to, from the chunks of a transcript
  unfoldable pub folded : (budget : ℕ) → List String → Option Reduced
  unfolding reduce
  folded budget chunks = reduce max_reduce_rounds budget (record {
    instruction = recipe.single;
    body = elim (head chunks) [ none ↦ "" | some chunk ↦ chunk ];
    chunks = chunks;
  })

-- `fold`: `shaped` is the answer to a prompt that asks for the schema, and `validated` is
-- `SummaryResult.model_validate_json`, `none` where it raises. The outer `none` is the `RuntimeError`.
unfoldable pub fold :
    {Summary : Type 0}
    → CharTables
    → (Json → String)
    → (complete shaped : (system user : String) → String) → (validated : String → Option Summary)
    → Recipe
    → (budget : ℕ) → List Message
    → Option (Option Summary)
unfolding folded chunk_transcript build_user_prompt
fold u shown complete shaped validated recipe budget messages =
    Option.map
      (λ r.
        validated
          (shaped recipe.system (build_user_prompt r.instruction (body_of r) recipe.context)))
      (folded complete recipe budget (chunk_transcript u shown messages budget))
