-- ===== src/Summaries/Chunks.antt =====
-- `split_text` and `chunk_transcript` of backend/summarizers/prompt.py: every chunk fits the budget, and
-- no message is lost.
use mathlib.Core.List
use text.Mathlib.TextLemmas
use knowledgebase_storage.Common.Members.{flatten-snoc}
use knowledgebase_storage.Common.{
  ℕ, ◌+◌, ◌≤◌, ◌<◌, String, ◌≡◌, refl, sym, ap, ◌∙◌, subst, inl, inr, true, false, not, ◌&&◌, List,
  [], ◌∷◌, ◌++◌, map, arith, ltb, leb, Bool-cases, ◌<>◌, All, is_empty,
}
use knowledgebase_storage.Common.Texts.{text_length, all_text, pieces}
use knowledgebase_storage.Common.Texts.Laws.{pieces_all, pieces_short, all_text-append}
use knowledgebase_storage.Common.Table.Laws.{All-turn, All-append}
use knowledgebase_storage.Names.{CharTables}
use knowledgebase_storage.Models.Json.{Json, Message}
use knowledgebase_storage.Summaries.{
  estimate_tokens, size_for, split_text, render_transcript, Chunking, flush, add_message,
  add_messages, chunk_transcript,
}

abbrev pub Fits : ℕ → String → Type 0
Fits budget s = estimate_tokens s ≤ budget

size_for-pos : (b : ℕ) → 0 < size_for b
size_for-pos b = ground arith

short-Fits : (b : ℕ) (s : String) → 1 ≤ b → text_length s ≤ size_for b → Fits b s
unfolding estimate_tokens
short-Fits b s h l = ground arith

-- A text that is cut up is the pieces in order, and each of them fits the budget.
pub split_text_lem :
    (s : String) (budget : ℕ)
    → 1 ≤ budget
    → (all_text (split_text s budget) ≡ s) × All (Fits budget) (split_text s budget)
unfolding split_text all_text
split_text_lem s budget h = elim (Bool-cases (leb (estimate_tokens s) budget)) [
  | inl e ↦ rw e (TextLemmas.append-nil s, (ground (arith, e), tt))
  | inr e ↦ rw e (
    pieces_all (text_length s) (size_for budget) s (size_for-pos budget) (omega arith),
    All-turn (λ p. text_length p ≤ size_for budget) (Fits budget) (λ p l. short-Fits budget p h l)
        (pieces (text_length s) (size_for budget) s)
        (pieces_short (text_length s) (size_for budget) s),
  )
]

all_text-map-snoc :
    {A : Type 0} (f : A → String) (xs : List A) (x : A)
    → all_text (map f (xs ++ (x ∷ []))) ≡ all_text (map f xs) <> f x
unfolding all_text
all_text-map-snoc f xs x =
    ap all_text (List.map-append f xs (x ∷ []))
    ∙ all_text-append (map f xs) (f x ∷ [])
    ∙ ap (λ t. all_text (map f xs) <> t) (TextLemmas.append-nil (f x))

is_empty-nil : {A : Type 0} (xs : List A) → is_empty xs ≡ true → xs ≡ []
is_empty-nil [] h = refl
is_empty-nil (x ∷ xs) h = absurd (cc)

module _ (u : CharTables) (shown : Json → String) (budget : ℕ) (enough : 1 ≤ budget) where
  abbrev render : List Message → String
  render = render_transcript u shown

  -- The chunks are texts of groups of messages, which are the messages in order.
  pub record IsCut (groups : List (List Message)) (messages : List Message) (chunks : List String)
      : Type 0 where
    pub in_order : List.flatten groups ≡ messages
    pub told : all_text chunks ≡ all_text (map (render_transcript u shown) groups)
    pub fits : All (Fits budget) chunks
    pub filled : All (λ g. is_empty g ≡ false) groups

  -- one more group, cut up
  IsCut-more :
      (groups : List (List Message)) (g messages : List Message) (chunks : List String)
      → is_empty g ≡ false
      → IsCut groups messages chunks
      → IsCut (groups ++ (g ∷ [])) (messages ++ g) (chunks ++ split_text (render g) budget)
  IsCut-more groups g messages chunks f c =
      let (whole, short) = split_text_lem (render g) budget enough in
      record {
        in_order = flatten-snoc groups g ∙ ap (λ t. t ++ g) c.in_order;
        told =
            all_text-append chunks (split_text (render g) budget)
            ∙ ap (λ t. all_text chunks <> t) whole
            ∙ ap (λ t. t <> render g) c.told
            ∙ sym (all_text-map-snoc (render_transcript u shown) groups g);
        fits = All-append (Fits budget) chunks (split_text (render g) budget) c.fits short;
        filled = All-append (λ g. is_empty g ≡ false) groups (g ∷ []) c.filled (f, tt);
      }

  -- What was read is in the chunks or in the current group.
  abbrev IsRead : List Message → Chunking → Type 0
  IsRead seen c =
      (groups : List (List Message)) × (done : List Message) × (done ++ c.current ≡ seen)
      × IsCut groups done c.chunks

  flush-IsRead :
      (seen : List Message) (c : Chunking)
      → IsRead seen c
      → ((flush u shown budget c).current ≡ []) × IsRead seen (flush u shown budget c)
  unfolding flush
  flush-IsRead seen c (groups, done, e, cut) = elim (Bool-cases (is_empty c.current)) [
    | inl h ↦ rw h (is_empty-nil c.current h, (groups, done, e, cut))
    | inr h ↦ rw h (
      refl,
      (
        groups ++ (c.current ∷ []),
        seen,
        List.append-nil seen,
        subst
            (λ m.
              IsCut (groups ++ (c.current ∷ [])) m
                (c.chunks ++ split_text (render c.current) budget))
            e (IsCut-more groups c.current done c.chunks h cut),
      ),
    )
  ]

  add_message-IsRead :
      (seen : List Message) (c : Chunking) (m : Message)
      → IsRead seen c
      → IsRead (seen ++ (m ∷ [])) (add_message u shown budget c m)
  unfolding add_message
  add_message-IsRead seen c m read =
      let tokens = estimate_tokens (render (m ∷ [])) in
      let (none_held, (groups, done, e, cut)) = flush-IsRead seen c read in
      elim (Bool-cases (ltb budget tokens)) [
        | inl big ↦ rw big (
          groups ++ ((m ∷ []) ∷ []),
          done ++ (m ∷ []),
          rw none_held (List.append-nil (done ++ (m ∷ [])))
              ∙ ap (λ t. t ++ (m ∷ [])) (sym (List.append-nil done) ∙ rw none_held at e),
          IsCut-more groups (m ∷ []) done (flush u shown budget c).chunks refl cut,
        )
        | inr small ↦
            rw small
              (elim (Bool-cases
                (not (is_empty c.current) && ltb budget (c.current_tokens + tokens))) [
                  | inl full ↦ rw full (held seen (flush u shown budget c) m (groups, done, e, cut))
                  | inr fits ↦ rw fits (held seen c m read)
                ])
      ]
    where
      held :
          (seen : List Message) (c : Chunking) (m : Message)
          → IsRead seen c
          → (groups : List (List Message)) × (done : List Message) × (done
                ++ (c.current ++ (m ∷ []))
              ≡ seen ++ (m ∷ []))
            × IsCut groups done c.chunks
      held seen c m (groups, done, e, cut) = (
        groups,
        done,
        sym (List.append_assoc done c.current (m ∷ [])) ∙ ap (λ t. t ++ (m ∷ [])) e,
        cut,
      )

  add_messages-IsRead :
      (seen : List Message) (c : Chunking) (ms : List Message)
      → IsRead seen c
      → IsRead (seen ++ ms) (add_messages u shown budget c ms)
  unfolding add_messages
  add_messages-IsRead seen c [] read = subst (λ s. IsRead s c) (sym (List.append-nil seen)) read
  add_messages-IsRead seen c (m ∷ ms) read =
      subst (λ s. IsRead s (add_messages u shown budget (add_message u shown budget c m) ms))
        (List.append_assoc seen (m ∷ []) ms)
        (add_messages-IsRead (seen ++ (m ∷ [])) (add_message u shown budget c m) ms
          (add_message-IsRead seen c m read))

  -- A transcript that is cut to a budget of at least one token: there are groups of messages, none of
  -- them empty, which are the messages in order, and the chunks one after the other are the texts of the
  -- groups. Each chunk fits the budget.
  pub chunk_transcript_lem :
      (messages : List Message)
      → (groups : List (List Message)) × IsCut groups messages
          (chunk_transcript u shown messages budget)
  unfolding chunk_transcript List.flatten
  chunk_transcript_lem messages =
      let begun : Chunking = record { chunks = []; current = []; current_tokens = 0 } in
      let read = add_messages-IsRead [] begun messages ([], [], refl, nothing_cut) in
      let (none_held, (groups, done, e, cut)) =
        flush-IsRead messages (add_messages u shown budget begun messages) read in
      (
        groups,
        subst
            (λ m.
              IsCut groups m
                (flush u shown budget (add_messages u shown budget begun messages)).chunks)
            (sym (List.append-nil done) ∙ rw none_held at e) cut,
      )
    where
      nothing_cut : IsCut [] [] []
      nothing_cut = record { in_order = refl; told = refl; fits = tt; filled = tt }
