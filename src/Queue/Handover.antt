-- ===== src/Queue/Handover.antt =====
-- `carry_memory_merges` of backend/repositories/job.py: the documents that wait to be merged.
use knowledgebase_storage.Common.{
  ℕ, suc, String, ◌≡◌, refl, sym, ap, ◌∙◌, subst, inl, inr, true, false, Option, none, some, List,
  [], ◌∷◌, ◌++◌, arith, ◌==◌, ◌<>◌, eqb, Bool-cases, All, keep, Memᴰ, not,
}
use knowledgebase_storage.Common.Table.{first, delete_where}
use knowledgebase_storage.Common.Table.Laws.{All-members}
use knowledgebase_storage.Common.Table.Members.{mem-keep_back}
use knowledgebase_storage.Common.Table.Distinct.{IsDistinct, distinct_eq}
use knowledgebase_storage.Models.{
  Job, SessionKey, key_eq, background_session, memory_merge, new_job, is_settled,
}
use knowledgebase_storage.Models.Json.{Message}
use knowledgebase_storage.Queue.{same_row, find_by_session}
use knowledgebase_storage.Queue.Background.{
  ensure_memory_merge, drop, or_empty, background_key, background_job, is_idle, or_new, file_merge,
  arm_merge,
}
use knowledgebase_storage.Queue.Merges.{merge_each, carry_merge, path_name, or_blank}
use knowledgebase_storage.Queue.Tables.{Keeps, same_row_sym, All-save, All-find_by_session}
use knowledgebase_storage.Queue.Documents.{
  unmerged, waiting, merged_row, merge_key, found-key, merge_each-waiting,
}

-- a row of that identifier does not stand under the key
unfoldable KeptOut : (id : ℕ) → SessionKey → Job → Type 0
KeptOut id key j = eqb j.id id ≡ true → key_eq j.key key ≡ false

KeptOut-Keeps : (id : ℕ) (key : SessionKey) → Keeps (KeptOut id key)
unfolding KeptOut
KeptOut-Keeps id key = record { touch = λ now j h. h }

merged_row-KeptOut :
    (own id now : ℕ) (session_id into path : String) (document : Message) (o : Option Job)
    → eqb id own ≡ false
    → ((j : Job) → o ≡ some j → eqb j.id own ≡ false)
    → KeptOut own (background_key session_id) (merged_row id now session_id into path document o)
unfolding KeptOut or_new background_job new_job file_merge is_idle arm_merge
merged_row-KeptOut own id now session_id into path document none new h = λ e. absurd (cc (e, new))
merged_row-KeptOut own id now session_id into path document (some j) new h =
    let apart = h j refl in
    elim (Bool-cases (is_settled j.status)) [
      | inl e ↦ rw e (λ same. absurd (cc (same, apart)))
      | inr e ↦ rw e (λ same. absurd (cc (same, apart)))
    ]

ensure_memory_merge-KeptOut :
    (own id now : ℕ) (into name path : String) (document : Message) (jobs : List Job)
    → eqb id own ≡ false
    → All (KeptOut own (merge_key into name)) jobs
    → All
        (KeptOut own (merge_key into name))
        (ensure_memory_merge id now into name path document jobs).1
unfolding ensure_memory_merge
ensure_memory_merge-KeptOut own id now into name path document jobs new all =
    let s = background_session memory_merge (into <> ("/" <> name)) in
    let existing = find_by_session (background_key s) jobs in
    All-save (KeptOut own (background_key s)) (KeptOut-Keeps own (background_key s)) now
      (merged_row id now s into path document existing) jobs
      (merged_row-KeptOut own id now s into path document existing new (λ j e.
        other_id own (background_key s) j
          (All-find_by_session (KeptOut own (background_key s))
            (KeptOut-Keeps own (background_key s)) (background_key s) jobs all e)
          (found-key (background_key s) jobs j e)))
      all
  where
    other_id :
        (own : ℕ) (key : SessionKey) (j : Job)
        → KeptOut own key j
        → key_eq j.key key ≡ true
        → eqb j.id own ≡ false
    other_id own key j out k = elim (Bool-cases (eqb j.id own)) [
      | inl e ↦ absurd (let no : key_eq j.key key ≡ false = unfold KeptOut in out e in cc (no, k))
      | inr e ↦ e
    ]

merge_each-KeptOut :
    (own : ℕ) (fresh : ℕ → ℕ) (now : ℕ) (into name path : String) (documents : List Message)
    (jobs : List Job)
    → ((k : ℕ) → eqb (fresh k) own ≡ false)
    → All (KeptOut own (merge_key into name)) jobs
    → All (KeptOut own (merge_key into name)) (merge_each fresh now into name path documents jobs)
unfolding merge_each
merge_each-KeptOut own fresh now into name path [] jobs new all = all
merge_each-KeptOut own fresh now into name path (document ∷ documents) jobs new all =
    merge_each-KeptOut own (λ n. fresh (suc n)) now into name path documents _ (λ k. new (suc k))
      (ensure_memory_merge-KeptOut own (fresh 0) now into name path document jobs (new 0) all)

find_by_session-drop :
    (held : Job) (key : SessionKey) (jobs : List Job)
    → All (KeptOut held.id key) jobs
    → find_by_session key (drop held jobs) ≡ find_by_session key jobs
unfolding find_by_session drop first delete_where keep KeptOut
find_by_session-drop held key [] all = refl
find_by_session-drop held key (j ∷ jobs) all = elim (Bool-cases (eqb j.id held.id)) [
  | inl e ↦
      let out = all.0 e in
      let rest = find_by_session-drop held key jobs all.1 in ground (arith, e, out, rest)
  | inr e ↦ let rest = find_by_session-drop held key jobs all.1 in ground (arith, e, rest)
]

dropped-All : (held : Job) (jobs : List Job) → All (λ j. eqb j.id held.id ≡ false) (drop held jobs)
unfolding drop delete_where
dropped-All held jobs =
    All-members (λ j. eqb j.id held.id ≡ false) _
      (λ j m.
        let (there, t) = mem-keep_back (λ j. not (same_row held j)) j jobs m in ground (arith, t))

distinct-KeptOut :
    (held : Job) (into name : String) (jobs : List Job)
    → (held.key.session_id == background_session memory_merge (into <> ("/" <> name))) ≡ false
    → IsDistinct same_row jobs
    → Memᴰ held jobs
    → All (KeptOut held.id (merge_key into name)) jobs
unfolding KeptOut
distinct-KeptOut held into name jobs other d m =
    All-members (KeptOut held.id (merge_key into name)) jobs (λ j n same.
      let one : j ≡ held = distinct_eq same_row same_row_sym jobs j held d n m same in
      subst (λ k. key_eq k.key (merge_key into name) ≡ false) (sym one) (ground (arith, other)))

-- An unfinished merge of a memory that has a name, carried to a project that it is no merge of already, in a
-- table whose rows have different identifiers, none of them new: the documents that wait to be merged into
-- that memory of the project are those that waited there, and after them all that the carried row held;
-- and the carried row is gone.
pub carry_merge-waiting :
    (fresh : ℕ → ℕ) (now : ℕ) (into base : String) (held : Job) (jobs : List Job)
    → let name = path_name (or_blank held.note_path) in
      (name == "") ≡ false
      → (held.key.session_id == background_session memory_merge (into <> ("/" <> name))) ≡ false
      → IsDistinct same_row jobs
      → Memᴰ held jobs
      → ((k : ℕ) → eqb (fresh k) held.id ≡ false)
      → let after = (carry_merge fresh now into base held jobs).1 in
        (waiting into name after ≡ waiting into name jobs ++ or_empty held.transcript)
        × All (λ j. eqb j.id held.id ≡ false) after
unfolding carry_merge waiting
carry_merge-waiting fresh now into base held jobs named other d m new =
    let name = path_name (or_blank held.note_path) in
    let path = base <> ("/" <> name) in
    let documents = or_empty held.transcript in
    let merged = merge_each fresh now into name path documents jobs in
    let out =
      merge_each-KeptOut held.id fresh now into name path documents jobs new
        (distinct-KeptOut held into name jobs other d m) in
    rw (named, other)
      (
        ap unmerged (find_by_session-drop held (merge_key into name) merged out)
            ∙ (unfold waiting in merge_each-waiting fresh now into name path documents jobs),
        dropped-All held merged,
      )
