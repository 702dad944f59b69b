-- ===== src/Extract/Runs.antt =====
-- What the operations of `Reader` in backend/services/extract.py do to the segments' numbers, requests and times.

use knowledgebase_storage.Common.{
  ℕ, suc, ◌+◌, String, ◌≡◌, refl, sym, ap, ◌∙◌, inl, inr, List, [], ◌∷◌, ◌++◌, arith, ◌==◌,
  Bool-cases, length, contains, is_empty,
}
use knowledgebase_storage.Extract.{
  Segment, Reader, on_last, flush, add, add_line, note, open_segment, stamp, trace_of_tool,
}

abbrev pub heading : Segment → ℕ × String × String
heading s = (s.number, s.request, s.started_at)

abbrev pub headings : List Segment → List (ℕ × String × String)
headings [] = []
headings (s ∷ ss) = heading s ∷ headings ss

-- The requests with their times, numbered.
abbrev pub numbered : ℕ → List (String × String) → List (ℕ × String × String)
numbered n [] = []
numbered n ((request, time) ∷ rest) = (n, request, time) ∷ numbered (suc n) rest

-- The segments are those of these requests, numbered from one on.
unfoldable pub Asks : List (String × String) → Reader → Type 0
Asks requests r = headings r.segments ≡ numbered 1 requests

numbered-append :
    (n : ℕ) (xs : List (String × String)) (request time : String)
    → numbered n (xs ++ ((request, time) ∷ []))
      ≡ numbered n xs ++ ((n + length xs, request, time) ∷ [])
numbered-append n [] request time = ap (λ (k : ℕ). (k, request, time) ∷ []) (omega arith)
numbered-append n ((x, t) ∷ xs) request time =
    ap (λ (l : List (ℕ × String × String)). (n, x, t) ∷ l)
      (numbered-append (suc n) xs request time
        ∙ ap (λ (k : ℕ). numbered (suc n) xs ++ ((k, request, time) ∷ [])) (omega arith))

length-numbered : (n : ℕ) (xs : List (String × String)) → length (numbered n xs) ≡ length xs
length-numbered n [] = refl
length-numbered n ((x, t) ∷ xs) = ap suc (length-numbered (suc n) xs)

length-headings : (ss : List Segment) → length (headings ss) ≡ length ss
length-headings [] = refl
length-headings (s ∷ ss) = ap suc (length-headings ss)

headings-append : (ss ts : List Segment) → headings (ss ++ ts) ≡ headings ss ++ headings ts
headings-append [] ts = refl
headings-append (s ∷ ss) ts = ap (λ l. heading s ∷ l) (headings-append ss ts)

headings-on_last :
    (f : Segment → Segment) (ss : List Segment)
    → ((s : Segment) → heading (f s) ≡ heading s)
    → headings (on_last f ss) ≡ headings ss
unfolding on_last
headings-on_last f [] h = refl
headings-on_last f (s ∷ []) h = ap (λ k. k ∷ []) (h s)
headings-on_last f (s ∷ t ∷ ts) h = ap (λ l. heading s ∷ l) (headings-on_last f (t ∷ ts) h)

headings-flush : (r : Reader) → headings (flush r).segments ≡ headings r.segments
unfolding flush add
headings-flush r = elim (Bool-cases (is_empty r.traces)) [
  | inl e ↦ rw e refl
  | inr e ↦ rw e (headings-on_last (add r.traces) r.segments (λ s. refl))
]

pub flush-Asks :
    (requests : List (String × String)) (r : Reader) → Asks requests r → Asks requests (flush r)
unfolding Asks
flush-Asks requests r h = headings-flush r ∙ h

headings-add_line : (line : String) (s : Segment) → heading (add_line line s) ≡ heading s
unfolding add_line
headings-add_line line s = elim (Bool-cases (contains s.lines line)) [
  | inl e ↦ rw e refl
  | inr e ↦ rw e refl
]

pub note-Asks :
    (requests : List (String × String)) (line : String) (r : Reader)
    → Asks requests r
    → Asks requests (note line r)
unfolding note Asks
note-Asks requests line r h =
    headings-on_last (add_line line) (flush r).segments (headings-add_line line)
    ∙ headings-flush r
    ∙ h

pub trace_of_tool-Asks :
    (requests : List (String × String)) (trace : String) (r : Reader)
    → Asks requests r
    → Asks requests (trace_of_tool trace r)
unfolding Asks
trace_of_tool-Asks requests trace r h = h

pub stamp-Asks :
    (requests : List (String × String)) (value : String) (r : Reader)
    → Asks requests r
    → Asks requests (stamp value r)
unfolding stamp Asks
stamp-Asks requests value r h = elim (Bool-cases (value == "")) [ inl e ↦ rw e h | inr e ↦ rw e h ]

pub open_segment-Asks :
    (requests : List (String × String)) (request time : String) (r : Reader)
    → Asks requests r
    → Asks (requests ++ ((request, time) ∷ [])) (open_segment request time r)
unfolding open_segment Asks
open_segment-Asks requests request time r h =
    let k = headings-flush r ∙ h in
    let n : length (flush r).segments + 1 ≡ 1 + length requests =
      omega (arith, length-headings (flush r).segments, ap length k, length-numbered 1 requests) in
    headings-append (flush r).segments (
      record {
        number = length (flush r).segments + 1;
        request = request;
        started_at = time;
        lines = [];
        commands = 0;
        skipped = 0;
      }
      ∷ [])
    ∙ ap (λ l. l ++ ((length (flush r).segments + 1, request, time) ∷ [])) k
    ∙ ap (λ (m : ℕ). numbered 1 requests ++ ((m, request, time) ∷ [])) n
    ∙ sym (numbered-append 1 requests request time)

-- A change of the last segment that leaves its heading.
pub on_last-Asks :
    (requests : List (String × String)) (f : Segment → Segment) (r : Reader)
    → ((s : Segment) → heading (f s) ≡ heading s)
    → Asks requests r
    → Asks requests (record r { segments = on_last f r.segments })
unfolding Asks
on_last-Asks requests f r same h = headings-on_last f r.segments same ∙ h

pub trace-Asks :
    (requests : List (String × String)) (r : Reader) (traces : List String)
    → Asks requests r
    → Asks requests (record r { traces = traces })
unfolding Asks
trace-Asks requests r traces h = h

pub cwd-Asks :
    (requests : List (String × String)) (r : Reader) (cwd : String)
    → Asks requests r
    → Asks requests (record r { cwd = cwd })
unfolding Asks
cwd-Asks requests r cwd h = h
