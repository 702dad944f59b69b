-- ===== src/Extract/Traces.antt =====
-- `Segment.add` of backend/services/extract.py: which traces of tools a segment keeps.
use mathlib.Core.List
use knowledgebase_storage.Common.{
  ◌+◌, ◌≤◌, min, String, ◌≡◌, refl, sym, ap, ◌∙◌, inl, inr, Bool, not, List, [], ◌∷◌, ◌++◌, arith,
  ltb, if◌then◌else◌, ◌<>◌, Bool-cases, length, length-append, keep, keep-append, is_empty,
}
use knowledgebase_storage.Common.Texts.{join}
use knowledgebase_storage.Extract.{
  Segment, Added, add_trace, add_traces, add, distinct_from, is_kept, max_commands,
}

abbrev is_command : String → Bool
is_command trace = not (is_kept trace)

-- What a run of traces adds to what was kept, counted and skipped before.
record Adds (traces : List String) (a b : Added) : Type 0 where
  all_kept : keep is_kept b.kept ≡ keep is_kept a.kept ++ keep is_kept traces
  all_counted : length b.kept + b.skipped ≡ length a.kept + length traces + a.skipped
  counted : b.commands ≡ min max_commands (a.commands + length (keep is_command traces))

add_trace-Adds :
    (trace : String) (a : Added)
    → a.commands ≤ max_commands
    → Adds (trace ∷ []) a (add_trace trace a)
unfolding add_trace keep
add_trace-Adds trace a room = elim (Bool-cases (is_kept trace)) [
  | inl e ↦ record {
    all_kept = rw e (keep-append is_kept a.kept (trace ∷ []) ∙ rw e refl);
    all_counted = rw e (omega (arith, length-append a.kept (trace ∷ [])));
    counted = rw e (omega arith);
  }
  | inr e ↦ elim (Bool-cases (ltb a.commands max_commands)) [
    | inl f ↦ record {
      all_kept = rw (e, f) (keep-append is_kept a.kept (trace ∷ []) ∙ rw e refl);
      all_counted = rw (e, f) (omega (arith, length-append a.kept (trace ∷ [])));
      counted = rw (e, f) (ground (arith, f));
    }
    | inr f ↦ record {
      all_kept = rw (e, f) (sym (List.append-nil (keep is_kept a.kept)));
      all_counted = rw (e, f) (omega arith);
      counted = rw (e, f) (ground (arith, f, room));
    }
  ]
]

add_traces-Adds :
    (traces : List String) (a : Added)
    → a.commands ≤ max_commands
    → Adds traces a (add_traces traces a)
unfolding add_traces keep
add_traces-Adds [] a room = record {
  all_kept = sym (List.append-nil (keep is_kept a.kept));
  all_counted = omega arith;
  counted = omega arith;
}
add_traces-Adds (t ∷ ts) a room =
    let one = add_trace-Adds t a room in
    let rest = add_traces-Adds ts (add_trace t a) (omega (arith, one.counted)) in
    let all : keep is_command (t ∷ ts) ≡ keep is_command (t ∷ []) ++ keep is_command ts =
      keep-append is_command (t ∷ []) ts in
    record {
      all_kept =
          rest.all_kept
          ∙ ap (λ l. l ++ keep is_kept ts) one.all_kept
          ∙ List.append_assoc (keep is_kept a.kept) (keep is_kept (t ∷ [])) (keep is_kept ts)
          ∙ ap (λ l. keep is_kept a.kept ++ l) (sym (keep-append is_kept (t ∷ []) ts));
      all_counted = omega (arith, one.all_counted, rest.all_counted);
      counted = omega (
        arith,
        one.counted,
        rest.counted,
        ap length all,
        length-append (keep is_command (t ∷ [])) (keep is_command ts),
      );
    }

-- A segment keeps every trace of a changed file or of a failure, and of the others, each counted once, as many
-- as bring its commands to the limit; the rest are counted as skipped. Its commands are within the limit.
pub add_lem :
    (traces : List String) (s : Segment)
    → s.commands ≤ max_commands
    → let once = distinct_from [] traces in
      (kept : List String) × ((add traces s).lines
        ≡ (if is_empty kept then s.lines else s.lines ++ (("도구: " <> join ", " kept) ∷ [])))
      × (keep is_kept kept ≡ keep is_kept once)
      × (length kept + (add traces s).skipped ≡ length once + s.skipped)
      × ((add traces s).commands ≡ min max_commands (s.commands + length (keep is_command once)))
unfolding add keep
add_lem traces s room =
    let a : Added = record { kept = []; commands = s.commands; skipped = s.skipped } in
    let h = add_traces-Adds (distinct_from [] traces) a room in
    (
      (add_traces (distinct_from [] traces) a).kept,
      refl,
      h.all_kept,
      h.all_counted ∙ omega arith,
      h.counted,
    )
