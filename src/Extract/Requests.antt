-- ===== src/Extract/Requests.antt =====
-- `read_claude` of backend/services/extract.py: the segments are the user's requests.
use mathlib.Core.List
use knowledgebase_storage.Common.{
  String, ◌≡◌, refl, sym, subst, inl, inr, Bool, not, ◌&&◌, ◌||◌, Option, none, some, List, [], ◌∷◌,
  ◌++◌, ◌==◌, Bool-cases, is_empty, true, false, arith, All,
}
use knowledgebase_storage.Models.Json.{Json, null, bool, number, text, array, object, Message, get}
use knowledgebase_storage.Extract.{Reader, new_reader}
use knowledgebase_storage.Extract.Values.{Texts, is_word_of, truthy, str_or_empty}
use knowledgebase_storage.Extract.Claude.{
  Reading, request_in, blocks_of, read_user_block, read_claude_user, read_message, seen, read_entry,
  read_entries, claude_reader,
}
use knowledgebase_storage.Extract.Reads.{
  read_claude, claude_fails, claude_entry_fails, message_fails,
}
use knowledgebase_storage.Extract.Runs.{Asks, headings, numbered, flush-Asks, open_segment-Asks}
use knowledgebase_storage.Extract.Readings.{
  asked_blocks, asked_message, asked_in, all_asked, read_attachment-Asks, read_result-Asks,
  read_claude_assistant-Asks, seen-Asks,
}

module _ (p : Texts) where
  -- What is added to the requests is none, or one.
  none_more :
      (requests : List (String × String)) (r : Reader) → Asks requests r → Asks (requests ++ []) r
  none_more requests r h = subst (λ q. Asks q r) (sym (List.append-nil requests)) h

  more :
      (requests first then_these : List (String × String)) (r : Reader)
      → Asks ((requests ++ first) ++ then_these) r
      → Asks (requests ++ (first ++ then_these)) r
  more requests first then_these r h =
      subst (λ q. Asks q r) (List.append_assoc requests first then_these) h

  read_user_block-Asks :
      (requests : List (String × String)) (is_summary : Bool) (time : String) (block : Message)
      (s : Reading)
      → Asks requests s.reader
      → Asks
          (requests ++ asked_blocks p is_summary time (block ∷ []))
          (read_user_block p is_summary time block s).reader
  unfolding read_user_block
  read_user_block-Asks requests is_summary time block s h =
      elim (Bool-cases (is_word_of "tool_result" (get "type" block))) [
        | inl e ↦ rw e (none_more requests _ (read_result-Asks p requests block s h))
        | inr e ↦ elim (Bool-cases (request_in p is_summary block == "")) [
          | inl f ↦ rw (e, f) (none_more requests _ h)
          | inr f ↦
              rw (e, f) (open_segment-Asks requests (request_in p is_summary block) time s.reader h)
        ]
      ]

  asked_blocks-cons :
      (is_summary : Bool) (time : String) (block : Message) (blocks : List Message)
      → asked_blocks p is_summary time (block ∷ []) ++ asked_blocks p is_summary time blocks
        ≡ asked_blocks p is_summary time (block ∷ blocks)
  asked_blocks-cons is_summary time block blocks =
      elim (Bool-cases
        (is_word_of "tool_result" (get "type" block) || request_in p is_summary block == "")) [
          | inl e ↦ rw e refl
          | inr e ↦ rw e refl
        ]

  read_claude_user-Asks :
      (requests : List (String × String)) (entry : Message) (blocks : List Message) (s : Reading)
      → Asks requests s.reader
      → Asks
          (requests
            ++ asked_blocks p
                (truthy p (get "isCompactSummary" entry))
                (str_or_empty p (get "timestamp" entry))
                blocks)
          (read_claude_user p entry blocks s).reader
  unfolding read_claude_user
  read_claude_user-Asks requests entry [] s h = none_more requests s.reader h
  read_claude_user-Asks requests entry (b ∷ bs) s h =
      let is_summary = truthy p (get "isCompactSummary" entry) in
      let time = str_or_empty p (get "timestamp" entry) in
      let first = asked_blocks p is_summary time (b ∷ []) in
      let s' = read_user_block p is_summary time b s in
      subst (λ q. Asks (requests ++ q) (read_claude_user p entry bs s').reader)
        (asked_blocks-cons is_summary time b bs)
        (more requests first (asked_blocks p is_summary time bs)
          (read_claude_user p entry bs s').reader
          (read_claude_user-Asks (requests ++ first) entry bs s'
            (read_user_block-Asks requests is_summary time b s h)))

  read_message-Asks :
      (requests : List (String × String)) (entry message : Message) (s : Reading)
      → Asks requests s.reader
      → Asks
          (requests ++ asked_message p entry (some (object message)))
          (read_message p entry message s).reader
  unfolding read_message
  read_message-Asks requests entry message s h =
      let blocks = blocks_of p (get "content" message) in
      elim (Bool-cases (is_word_of "user" (get "role" message))) [
        | inl e ↦ rw e (read_claude_user-Asks requests entry blocks s h)
        | inr e ↦
            elim (Bool-cases
              (is_word_of "assistant" (get "role" message) && not (is_empty s.reader.segments))) [
                | inl f ↦
                    rw (e, f)
                      (none_more requests _ (read_claude_assistant-Asks p requests blocks s h))
                | inr f ↦ rw (e, f) (none_more requests _ h)
              ]
      ]

  read_entry-Asks :
      (requests : List (String × String)) (entry : Message) (s : Reading)
      → Asks requests s.reader
      → Asks (requests ++ asked_in p entry) (read_entry p entry s).reader
  unfolding read_entry
  read_entry-Asks requests entry s h =
      let k = seen-Asks p requests entry s.reader h in
      let s' : Reading = record s { reader = seen p entry s.reader } in
      elim (Bool-cases (is_word_of "attachment" (get "type" entry))) [
        | inl e ↦ rw e (none_more requests _ (read_attachment-Asks p requests entry s'.reader k))
        | inr e ↦ elim (Bool-cases (truthy p (get "isMeta" entry))) [
          | inl f ↦ rw (e, f) (none_more requests _ k)
          | inr f ↦ rw (e, f) (with_message (get "message" entry) s' k)
        ]
      ]
    where
      with_message :
          (message : Option Json) (s' : Reading)
          → Asks requests s'.reader
          → Asks
              (requests ++ asked_message p entry message)
              (elim message as (λ x. Reading) [
                | some (object m) ↦ read_message p entry m s'
                | other ↦ s'
              ]).reader
      with_message none s' k = none_more requests s'.reader k
      with_message (some null) s' k = none_more requests s'.reader k
      with_message (some (bool b)) s' k = none_more requests s'.reader k
      with_message (some (number n)) s' k = none_more requests s'.reader k
      with_message (some (text t)) s' k = none_more requests s'.reader k
      with_message (some (array items)) s' k = none_more requests s'.reader k
      with_message (some (object m)) s' k = read_message-Asks requests entry m s' k

  read_entries-Asks :
      (requests : List (String × String)) (entries : List Message) (s : Reading)
      → Asks requests s.reader
      → Asks (requests ++ all_asked p entries) (read_entries p entries s).reader
  unfolding read_entries
  read_entries-Asks requests [] s h = none_more requests s.reader h
  read_entries-Asks requests (e ∷ es) s h =
      more requests (asked_in p e) (all_asked p es) (read_entries p es (read_entry p e s)).reader (
        read_entries-Asks (requests ++ asked_in p e) es (read_entry p e s)
          (read_entry-Asks requests e s h))

  -- an entry that raises no error while a segment is begun raises none
  unbegun_entry :
      (begun : Bool) (e : Message)
      → claude_entry_fails p true e ≡ false
      → claude_entry_fails p begun e ≡ false
  unfolding claude_entry_fails message_fails
  unbegun_entry true e h = h
  unbegun_entry false e h = ground (arith, h)

  none_fails :
      (entries : List Message) (s : Reading)
      → All (λ e. claude_entry_fails p true e ≡ false) entries
      → claude_fails p entries s ≡ false
  unfolding claude_fails
  none_fails [] s all = refl
  none_fails (e ∷ es) s all =
      rw
        (
          unbegun_entry (not (is_empty s.reader.segments)) e all.0,
          none_fails es (read_entry p e s) all.1,
        )
        refl

  -- A transcript with objects and lists wherever the code looks into a value, while a segment is begun, is
  -- read without an error. The segments are the requests in it, in their order and with their times, numbered
  -- from one on: every text of a user's message that is no result of a tool, no summary and not empty once it is
  -- cleaned, of an entry that is no attachment and not marked as meta.
  pub read_claude_lem :
      (entries : List Message)
      → All (λ e. claude_entry_fails p true e ≡ false) entries
      → (r : Reader) × (read_claude p entries ≡ some r)
        × (headings r.segments ≡ numbered 1 (all_asked p entries))
  unfolding read_claude claude_reader Asks
  read_claude_lem entries all =
      let s : Reading = record { reader = new_reader; pending = [] } in
      (
        claude_reader p entries,
        rw (none_fails entries s all) refl,
        flush-Asks (all_asked p entries) (read_entries p entries s).reader
            (read_entries-Asks [] entries s refl),
      )
