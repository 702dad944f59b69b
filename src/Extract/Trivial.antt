-- ===== src/Extract/Trivial.antt =====
-- `substantial` of backend/services/extract.py against the lines that `Segment.add` writes.
use Prim.Native.Char.{Char}
use Prim.Native.String as Text
use text.Mathlib.TextLemmas.{nil-append, cons-append, append-nil, append_assoc}
use knowledgebase_storage.Common.{
  String, ◌≡◌, refl, sym, ap, ◌∙◌, ◌⊎◌, inl, inr, Bool, true, false, not, ◌&&◌, ◌||◌, [], ◌∷◌,
  arith, ltb, leb, ◌<>◌, Bool-cases,
}
use knowledgebase_storage.Common.Texts.{join, text_length, flat_text}
use knowledgebase_storage.Names.{begins, has_part}
use knowledgebase_storage.Extract.{
  Segment, new_reader, add, add_trace, add_traces, distinct_from, is_kept, max_commands,
}
use knowledgebase_storage.Extract.Rendered.{
  split_from, some_edit, some_edited_line, some_edited, some_request, substantial,
  min_request_chars,
}

split_none :
    (separator part s : String)
    → has_part separator s ≡ false
    → split_from separator part 0 s ≡ (part <> s) ∷ []
unfolding split_from has_part
split_none separator part Text.[] h = ap (λ t. t ∷ []) (sym (append-nil part))
split_none separator part (Text.◌∷◌ c s) h = elim (Bool-cases (begins (Text.◌∷◌ c s) separator)) [
  | inl e ↦ absurd (let no : true ≡ false = rw e at h in cc)
  | inr e ↦ rw e (
      split_none separator (part <> (Text.◌∷◌ c "")) s (rw e at h)
      ∙ ap (λ t. t ∷ [])
          (append_assoc part (Text.◌∷◌ c "") s
            ∙ ap (λ t. part <> t) (cons-append c "" s ∙ ap (λ t. Text.◌∷◌ c t) (nil-append s))))
]

-- the line begins with the mark, not with the trace
mark_first :
    (t : String) → (begins ("도구: " <> t) "edit " ≡ false) × (begins ("도구: " <> t) "write " ≡ false)
unfolding begins
mark_first t = rw (cons-append "도" "구: " t) (refl, refl)

lines_of_one :
    (t : String) (s : Segment)
    → s.lines ≡ []
    → ((add (t ∷ []) s).lines ≡ []) ⊎ ((add (t ∷ []) s).lines ≡ ("도구: " <> t) ∷ [])
unfolding add add_traces add_trace distinct_from join
lines_of_one t s none_yet = elim (Bool-cases (is_kept t)) [
  | inl e ↦ inr (rw (e, none_yet) refl)
  | inr e ↦ elim (Bool-cases (ltb s.commands max_commands)) [
    | inl f ↦ inr (rw (e, f, none_yet) refl)
    | inr f ↦ inl (rw (e, f, none_yet) refl)
  ]
]

one_line_missed :
    (line : String)
    → has_part ", " line ≡ false
    → (begins line "edit " ≡ false) × (begins line "write " ≡ false)
    → some_edited_line (line ∷ []) ≡ false
unfolding some_edited_line some_edit
one_line_missed line whole (no_edit, no_write) =
    rw (split_none ", " "" line whole ∙ ap (λ t. t ∷ []) (nil-append line), no_edit, no_write) refl

-- A session with one request that is short, for which one trace was added, is not substantial, also where the
-- trace is that of a changed file: the line that `add` writes begins with a mark, and `substantial` looks at
-- the beginning of what stands between commas. The trace has no comma before a space.
pub substantial-add :
    (is_space : Char → Bool) (slash_only : String → Bool) (s : Segment) (t : String)
    → s.lines ≡ []
    → leb min_request_chars (text_length (flat_text is_space s.request)) ≡ false
    → has_part ", " ("도구: " <> t) ≡ false
    → substantial is_space slash_only (record new_reader { segments = add (t ∷ []) s ∷ [] }) ≡ false
unfolding substantial some_request some_edited add
substantial-add is_space slash_only s t none_yet short whole =
    let edited : some_edited_line (add (t ∷ []) s).lines || false ≡ false =
      elim (lines_of_one t s none_yet) [
        | inl e ↦ rw e refl
        | inr e ↦ rw e (rw (one_line_missed ("도구: " <> t) whole (mark_first t)) refl)
      ] in
    rw short (
      nothing (not (slash_only (flat_text is_space s.request)))
        (some_edited_line (add (t ∷ []) s).lines || false) edited)
  where
    nothing : (b x : Bool) → x ≡ false → (((b && false) || false) || x) ≡ false
    nothing b x h = ground (arith, h)
