-- ===== src/Prompts/Serving.antt =====
-- Which prompt serves a stage after one row is written: the steps of `seed` of backend/services/prompts.py.

use knowledgebase_storage.Common.{
  ℕ, ◌≡◌, refl, sym, ap, ◌∙◌, inl, inr, Bool, true, false, none, some, List, [], ◌∷◌, Memᴰ, arith,
  eq_refl, eqb, Bool-cases, Option-cases, All,
}
use knowledgebase_storage.Common.Table.{put}
use knowledgebase_storage.Common.Table.Laws.{All-get}
use knowledgebase_storage.Common.Table.Distinct.{IsDistinct}
use knowledgebase_storage.Prompts.{PromptStage, PromptText, Prompt, serves}
use knowledgebase_storage.Prompts.Defaults.{
  Default, with_default, differs, last_active, seeded, is_outdated, plain_text,
}

abbrev pub same_id : Prompt → Prompt → Bool
same_id a b = eqb a.id b.id

with_default-differs : (d : Default) (text : PromptText) → differs d (with_default d text) ≡ false
unfolding differs
with_default-differs d text = elim (Option-cases d.max_tokens) [
  | inl e ↦ rw e (ground (arith, eq_refl d.system))
  | inr (tokens, e) ↦ rw e (ground (arith, eq_refl d.system))
]

-- the prompt that is written is as the default says
pub seeded-IsCurrent :
    (id : ℕ) (stage : PromptStage) (d : Default) → is_outdated d (seeded id stage d) ≡ false
unfolding is_outdated seeded
seeded-IsCurrent id stage d = with_default-differs d plain_text

pub updated-IsCurrent :
    (d : Default) (p : Prompt) → is_outdated d (record p { text = with_default d p.text }) ≡ false
unfolding is_outdated
updated-IsCurrent d p = let same = with_default-differs d p.text in ground (arith, same)

-- the last row that serves a stage is one of the rows, and serves it
pub last_active_lem :
    (stage : PromptStage) (ps : List Prompt) (p : Prompt)
    → last_active stage ps ≡ some p
    → Memᴰ p ps × (serves stage p ≡ true)
unfolding last_active
last_active_lem stage [] p h = absurd (cc)
last_active_lem stage (q ∷ qs) p h = elim (Option-cases (last_active stage qs)) [
  | inl e ↦ elim (Bool-cases (serves stage q)) [
    | inl f ↦
        let own : some q ≡ some p = rw (e, f, last_active) at h in
        let same : q ≡ p = cc in (Memᴰ.head (sym same), ap (serves stage) (sym same) ∙ f)
    | inr f ↦ absurd (let no : none ≡ some p = rw (e, f, last_active) at h in cc)
  ]
  | inr (r, e) ↦
      let own : some r ≡ some p = rw (e, last_active) at h in
      let (there, f) = last_active_lem stage qs p (e ∙ own) in (Memᴰ.tail there, f)
]

-- a prompt that is new serves its stage
pub last_active-put_fresh :
    (x : Prompt) (ps : List Prompt)
    → serves x.stage x ≡ true
    → All (λ p. same_id x p ≡ false) ps
    → last_active x.stage (put same_id x ps) ≡ some x
unfolding last_active put
last_active-put_fresh x [] s new = rw s refl
last_active-put_fresh x (q ∷ qs) s new = rw (new.0) (rw (last_active-put_fresh x qs s new.1) refl)

-- another stage is served as it was, where the row that is replaced is none of its own
pub last_active-put_other :
    (stage : PromptStage) (x : Prompt) (ps : List Prompt)
    → serves stage x ≡ false
    → All (λ p. same_id x p ≡ true → serves stage p ≡ false) ps
    → last_active stage (put same_id x ps) ≡ last_active stage ps
unfolding last_active put
last_active-put_other stage x [] s all = rw s refl
last_active-put_other stage x (q ∷ qs) s all = elim (Bool-cases (same_id x q)) [
  | inl e ↦ let quiet = all.0 e in rw (e, s, quiet) refl
  | inr e ↦ rw e (rw (last_active-put_other stage x qs s all.1) refl)
]

-- the row that served a stage, changed in its text, still serves it
pub last_active-put_same :
    (stage : PromptStage) (x p : Prompt) (ps : List Prompt)
    → IsDistinct same_id ps
    → last_active stage ps ≡ some p
    → x.id ≡ p.id
    → serves stage x ≡ true
    → last_active stage (put same_id x ps) ≡ some x
unfolding last_active put
last_active-put_same stage x p [] d h i s = absurd (cc)
last_active-put_same stage x p (q ∷ qs) d h i s = elim (Option-cases (last_active stage qs)) [
  | inl e ↦ elim (Bool-cases (serves stage q)) [
    | inl f ↦
        let own : some q ≡ some p = rw (e, f, last_active) at h in
        let same : q.id ≡ p.id = ground arith in
        let here : same_id x q ≡ true = ground arith in rw here (rw (e, s) refl)
    | inr f ↦ absurd (let no : none ≡ some p = rw (e, f, last_active) at h in cc)
  ]
  | inr (r, e) ↦
      let own : some r ≡ some p = rw (e, last_active) at h in
      let apart =
        All-get (λ z. same_id q z ≡ false) qs p d.0 (last_active_lem stage qs p (e ∙ own)).0 in
      let other : same_id x q ≡ false = ground arith in
      rw other (rw (last_active-put_same stage x p qs d.1 (e ∙ own) i s) refl)
]
