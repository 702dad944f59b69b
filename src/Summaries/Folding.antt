-- ===== src/Summaries/Folding.antt =====
-- `Summarizer.fold` of backend/summarizers/base.py: the last prompt fits the budget, and a provider that
-- answers briefly folds a long transcript.

use knowledgebase_storage.Common.{
  Option, ℕ, zero, suc, ◌+◌, ◌-◌, ◌*◌, ◌/◌, ◌≤◌, ◌<◌, String, ◌≡◌, refl, sym, ap, ◌∙◌, subst, ◌⊎◌,
  inl, inr, false, none, some, List, [], ◌∷◌, map, arith, ltb, leb, Bool-cases, Option-cases,
  length, All,
}
use knowledgebase_storage.Common.Texts.{text_length, all_text, pieces}
use knowledgebase_storage.Common.Texts.Laws.{pieces_count, length-join}
use knowledgebase_storage.Names.{CharTables}
use knowledgebase_storage.Models.Json.{Json, Message}
use knowledgebase_storage.Summaries.{
  estimate_tokens, size_for, split_text, chunk_transcript, Recipe, Reduced, head, body_of, partials,
  reduce, folded, fold, build_user_prompt,
}
use knowledgebase_storage.Summaries.Chunks.{Fits, split_text_lem, chunk_transcript_lem}

-- The body of the last prompt fits, and it is the head of chunks that do.
abbrev Fitting : ℕ → Reduced → Type 0
Fitting budget r = All (Fits budget) r.chunks × (head r.chunks ≡ none → Fits budget r.body)

body-Fits : (budget : ℕ) (r : Reduced) → Fitting budget r → Fits budget (body_of r)
body-Fits budget r (all, other) = body r.chunks all other
  where
    body :
        (chunks : List String)
        → All (Fits budget) chunks
        → (head chunks ≡ none → Fits budget r.body)
        → Fits budget (elim (head chunks) [ none ↦ r.body | some chunk ↦ chunk ])
    body [] all other = other refl
    body (c ∷ cs) all other = all.0

-- a text that is cut to at least one token has a first piece, unless it is empty
cut_empty :
    (budget : ℕ) (s : String) → 1 ≤ budget → head (split_text s budget) ≡ none → Fits budget s
cut_empty budget s h none_there =
    let whole = (split_text_lem s budget h).0 in
    subst (Fits budget) (sym (no_text (split_text s budget) none_there) ∙ whole) (nothing budget h)
  where
    no_text : (ps : List String) → head ps ≡ none → all_text ps ≡ ""
    no_text [] e = unfold all_text in refl
    no_text (p ∷ ps) e = absurd (cc)

    nothing : (budget : ℕ) → 1 ≤ budget → Fits budget ""
    nothing budget h = unfold estimate_tokens in h

module _ (complete : (system user : String) → String) (recipe : Recipe) (budget : ℕ)
    (enough : 1 ≤ budget) where
  reduce-Fitting :
      (rounds : ℕ) (r s : Reduced)
      → Fitting budget r
      → reduce complete recipe rounds budget r ≡ some s
      → Fitting budget s
  unfolding reduce
  reduce-Fitting zero r s f h = elim (Bool-cases (ltb 1 (length r.chunks))) [
    | inl e ↦ absurd (let k : none ≡ some s = rw (e, reduce) at h in cc)
    | inr e ↦ subst (Fitting budget) {x = r} {y = s} (ground (arith, e, h)) f
  ]
  reduce-Fitting (suc rounds) r s f h = elim (Bool-cases (leb (length r.chunks) 1)) [
    | inl e ↦ subst (Fitting budget) {x = r} {y = s} (ground (arith, e, h)) f
    | inr e ↦
        let body = partials complete recipe r.chunks in
        reduce-Fitting rounds
          (record { instruction = recipe.reduced; body = body; chunks = split_text body budget }) s
          ((split_text_lem body budget enough).1, cut_empty budget body enough)
          (rw (e, reduce) at h)
  ]

  fold-answered :
      {Summary : Type 0} (u : CharTables) (shown : Json → String)
      (shaped : (system user : String) → String) (validated : String → Option Summary)
      (messages : List Message) (r : Reduced)
      → folded complete recipe budget (chunk_transcript u shown messages budget) ≡ some r
      → (instruction body : String) × Fits budget body
        × (fold u shown complete shaped validated recipe budget messages
            ≡ some (
                validated
                  (shaped recipe.system (build_user_prompt instruction body recipe.context))))
  unfolding fold folded
  fold-answered u shown shaped validated messages r e =
      let chunks = chunk_transcript u shown messages budget in
      let (groups, cut) = chunk_transcript_lem u shown budget enough messages in
      (
        r.instruction,
        body_of r,
        body-Fits budget r (reduce-Fitting 5 _ r (cut.fits, first_body chunks) e),
        rw e refl,
      )
    where
      first_body :
          (chunks : List String)
          → head chunks ≡ none
          → Fits budget (elim (head chunks) [ none ↦ "" | some chunk ↦ chunk ])
      first_body [] h = unfold estimate_tokens in enough
      first_body (c ∷ cs) h = absurd (cc)

  -- Whatever the provider answers: `fold` gives up, or it validates the answer to a prompt whose body fits
  -- the budget.
  pub fold-Fits :
      {Summary : Type 0} (u : CharTables) (shown : Json → String)
      (shaped : (system user : String) → String) (validated : String → Option Summary)
      (messages : List Message)
      → (fold u shown complete shaped validated recipe budget messages ≡ none)
        ⊎ ((instruction body : String) × Fits budget body
            × (fold u shown complete shaped validated recipe budget messages
                ≡ some (
                    validated
                      (shaped recipe.system (build_user_prompt instruction body recipe.context)))))
  unfolding fold
  fold-Fits u shown shaped validated messages =
      elim (Option-cases
        (folded complete recipe budget (chunk_transcript u shown messages budget))) [
          | inl e ↦ inl (rw e refl)
          | inr (r, e) ↦ inr (fold-answered u shown shaped validated messages r e)
        ]

-- fewer full pieces than half the parts
half_of : (n k h : ℕ) → n * (h * 2) < k * h + h * 2 → n ≤ (k + 1) / 2
half_of n k h lt = elim (Bool-cases (leb (k + 2) (n * 2))) [
  | inl e ↦
      let d : ℕ = n * 2 - (k + 2) in
      let sum : n * 2 ≡ k + 2 + d = ground (arith, e) in
      absurd (omega (arith, ap (λ (t : ℕ). t * h) sum))
  | inr e ↦ ground (arith, e)
]

module _ (complete : (system user : String) → String) (recipe : Recipe) (budget : ℕ)
    (brief : (user : String) → text_length (complete recipe.system user) + 8 ≤ budget) where
  partials-length :
      (chunks : List String)
      → text_length (partials complete recipe chunks) ≤ length chunks * (budget - 1) - 7
  unfolding partials text_length
  partials-length chunks = omega (
    arith,
    length-map answer chunks,
    brief "",
    ap (λ (n : ℕ). n * (budget - 8 + 7)) (length-map answer chunks),
    ap (λ (n : ℕ). length chunks * n) same_budget,
    length-join "\n\n---\n\n" (budget - 8) (map answer chunks)
        (all_brief answer chunks brief_answer),
  )
    where
      answer : String → String
      answer chunk = complete recipe.system (build_user_prompt recipe.mapped chunk recipe.context)

      same_budget : budget - 8 + 7 ≡ budget - 1
      same_budget = omega (arith, brief "")

      brief_answer : (x : String) → text_length (answer x) ≤ budget - 8
      brief_answer x = omega (arith, brief (build_user_prompt recipe.mapped x recipe.context))

      length-map : (f : String → String) (xs : List String) → length (map f xs) ≡ length xs
      length-map f [] = refl
      length-map f (x ∷ xs) = ap suc (length-map f xs)

      all_brief :
          (f : String → String) (xs : List String)
          → ((x : String) → text_length (f x) ≤ budget - 8)
          → All (λ s. text_length s ≤ budget - 8) (map f xs)
      all_brief f [] h = tt
      all_brief f (x ∷ xs) h = (h x, all_brief f xs h)

  cut-count :
      (s : String) (k : ℕ)
      → 2 ≤ k
      → text_length s ≤ k * (budget - 1) - 7
      → length (split_text s budget) ≤ (k + 1) / 2
  unfolding split_text
  cut-count s k two short = elim (Bool-cases (leb (estimate_tokens s) budget)) [
    | inl e ↦ rw e (omega arith)
    | inr e ↦ rw e (
        half_of (length (pieces (text_length s) (size_for budget) s)) k (budget - 1) (
          omega (
            arith,
            ap (λ (n : ℕ). length (pieces (text_length s) (size_for budget) s) * n) size_for-double,
            size_for-double,
            pieces_count (text_length s) (size_for budget) s
                (omega (arith, size_for-double, brief "")),
          )))
  ]
    where
      size_for-double : size_for budget ≡ (budget - 1) * 2
      size_for-double = ground (arith, brief "")

  -- how many chunks so many rounds can fold
  abbrev reach : ℕ → ℕ
  reach zero = 1
  reach (suc n) = reach n * 2

  reduce_answers :
      (rounds : ℕ) (r : Reduced)
      → length r.chunks ≤ reach rounds
      → (s : Reduced) × (reduce complete recipe rounds budget r ≡ some s)
  unfolding reduce
  reduce_answers zero r few = (r, rw (one_at_most (length r.chunks) few) refl)
    where
      one_at_most : (n : ℕ) → n ≤ 1 → ltb 1 n ≡ false
      one_at_most n h = ground arith
  reduce_answers (suc rounds) r few = elim (Bool-cases (leb (length r.chunks) 1)) [
    | inl e ↦ (r, rw e refl)
    | inr e ↦
        let body = partials complete recipe r.chunks in
        let (s, done) =
          reduce_answers rounds
            (record { instruction = recipe.reduced; body = body; chunks = split_text body budget })
            (omega (
              arith,
              few,
              cut-count body (length r.chunks) (ground (arith, e)) (partials-length r.chunks),
            )) in
        (s, rw e done)
  ]

  -- A provider whose answers are eight characters shorter than the budget has tokens, or shorter, folds
  -- every transcript of up to 32 chunks: `fold` does not give up with its `RuntimeError`, and its result is
  -- what the validation makes of the answer to a prompt whose body fits the budget, an error where that
  -- raises one.
  pub fold_answers :
      {Summary : Type 0} (u : CharTables) (shown : Json → String)
      (shaped : (system user : String) → String) (validated : String → Option Summary)
      (messages : List Message)
      → length (chunk_transcript u shown messages budget) ≤ 32
      → (instruction body : String) × Fits budget body
        × (fold u shown complete shaped validated recipe budget messages
            ≡ some (
                validated
                  (shaped recipe.system (build_user_prompt instruction body recipe.context))))
  unfolding folded
  fold_answers u shown shaped validated messages few =
      let (r, e) : (r : Reduced) × (folded complete recipe budget
              (chunk_transcript u shown messages budget)
            ≡ some r) =
        reduce_answers 5 _ few in
      fold-answered complete recipe budget (omega (arith, brief "")) u shown shaped validated
        messages r e
