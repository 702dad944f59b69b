-- ===== src/Extract.antt =====
-- backend/services/extract.py: the requests of a session's transcript, with what was done for each of them.
-- Extract/Claude and Extract/Codex read the two kinds of transcripts, and Extract/Reads says which of them
-- raise an error.
pub mod Values
pub mod Tools
pub mod Claude
pub mod Codex
pub mod Reads
pub mod Runs
pub mod Traces
pub mod Rendered
pub mod Trivial
pub mod Readings
pub mod Requests
pub mod Messages
pub mod Turns
use Prim.Native.Char.{Char}
use knowledgebase_storage.Common.{
  ℕ, suc, ◌+◌, ◌-◌, String, Bool, ◌||◌, List, [], ◌∷◌, ◌++◌, ◌==◌, leb, ltb, if◌then◌else◌,
  take_text, ◌<>◌, length, contains, is_empty,
}
use knowledgebase_storage.Common.Texts.{text_length, flat_text, join}
use knowledgebase_storage.Names.{strip, begins, has_part}

abbrev pub trace_chars : ℕ
trace_chars = 160

abbrev pub answer_chars : ℕ
answer_chars = 1500

abbrev pub plan_chars : ℕ
plan_chars = 400

abbrev pub error_chars : ℕ
error_chars = 300

abbrev pub max_commands : ℕ
max_commands = 20

unfoldable pub flatten : (is_space : Char → Bool) → String → (limit : ℕ) → String
unfolding flat_text text_length take_text
flatten is_space s limit =
    let joined = flat_text is_space s in
    if leb (text_length joined) limit then joined else take_text (limit - 1) joined <> "…"

-- `NOISE.sub` and `COMMAND.sub` are parameters.
unfoldable pub clean_request :
    (is_space : Char → Bool) → (without_noise with_commands : String → String) → String → String
unfolding strip
clean_request is_space without_noise with_commands s =
    strip is_space (with_commands (without_noise s))

pub record Segment : Type 0 where
  pub number : ℕ
  pub request : String
  pub started_at : String
  pub lines : List String
  pub commands : ℕ
  pub skipped : ℕ

-- `dict.fromkeys(traces)` after those that were met
unfoldable pub distinct_from : (met : List String) → List String → List String
distinct_from met [] = []
distinct_from met (s ∷ ss) =
    let known = distinct_from met ss in
    let fresh = s ∷ distinct_from (s ∷ met) ss in if contains met s then known else fresh

-- a trace of a changed file, or of a failure
unfoldable pub is_kept : String → Bool
unfolding begins has_part
is_kept trace = begins trace "edit " || begins trace "write " || has_part "실패" trace

-- The variables of `Segment.add`.
pub record Added : Type 0 where
  pub kept : List String
  pub commands : ℕ
  pub skipped : ℕ

unfoldable pub add_trace : String → Added → Added
unfolding is_kept
add_trace trace a =
    if is_kept trace
    then record a { kept = a.kept ++ (trace ∷ []) }
    else if ltb a.commands max_commands
    then record { kept = a.kept ++ (trace ∷ []); commands = suc a.commands; skipped = a.skipped }
    else record a { skipped = suc a.skipped }

unfoldable pub add_traces : List String → Added → Added
unfolding add_trace
add_traces [] a = a
add_traces (t ∷ ts) a = add_traces ts (add_trace t a)

-- `Segment.add`
unfoldable pub add : List String → Segment → Segment
unfolding add_traces distinct_from join
add traces segment =
    let a =
      add_traces (distinct_from [] traces)
        (record { kept = []; commands = segment.commands; skipped = segment.skipped }) in
    record segment {
      lines =
          if is_empty a.kept
          then segment.lines
          else segment.lines ++ (("도구: " <> join ", " a.kept) ∷ []);
      commands = a.commands;
      skipped = a.skipped;
    }

pub record Reader : Type 0 where
  pub segments : List Segment
  pub traces : List String
  pub cwd : String
  pub started_at : String
  pub ended_at : String

abbrev pub new_reader : Reader
new_reader = record { segments = []; traces = []; cwd = ""; started_at = ""; ended_at = "" }

-- a change of `segments[-1]`
unfoldable pub on_last : (Segment → Segment) → List Segment → List Segment
on_last f [] = []
on_last f (s ∷ []) = f s ∷ []
on_last f (s ∷ t ∷ ts) = s ∷ on_last f (t ∷ ts)

unfoldable pub flush : Reader → Reader
unfolding on_last add
flush r = record r {
  segments = if is_empty r.traces then r.segments else on_last (add r.traces) r.segments;
  traces = [];
}

unfoldable pub add_line : String → Segment → Segment
add_line line s = if contains s.lines line then s else record s { lines = s.lines ++ (line ∷ []) }

unfoldable pub note : String → Reader → Reader
unfolding flush on_last add_line
note line r =
    let flushed = flush r in record flushed { segments = on_last (add_line line) flushed.segments }

-- `Reader.open`
unfoldable pub open_segment : (request stamp : String) → Reader → Reader
unfolding flush
open_segment request stamp r =
    let flushed = flush r in
    record flushed {
      segments =
          flushed.segments
          ++ (record {
            number = length flushed.segments + 1;
            request = request;
            started_at = stamp;
            lines = [];
            commands = 0;
            skipped = 0;
          }
              ∷ []);
    }

unfoldable pub stamp : String → Reader → Reader
stamp value r = if value == "" then r else record r {
  started_at = if r.started_at == "" then value else r.started_at;
  ended_at = value;
}

abbrev pub trace_of_tool : String → Reader → Reader
trace_of_tool trace r = record r { traces = r.traces ++ (trace ∷ []) }
