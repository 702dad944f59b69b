-- ===== src/Lib.antt =====
-- Verification library of knowledgebase-storage, a server that keeps the transcripts of coding
-- sessions, has workers summarize them into notes, and files the notes by project.
--
-- The program's parts and how they work together. A client posts a session (backend/routes/jobs.py);
-- `JobService.enqueue` of backend/services/jobs.py files it as a row of the job table. Workers claim
-- rows (`JobRepository.claim_next` of backend/repositories/job.py), hold a claim token, and send a
-- result, a failure or a release back. Sweeps (backend/services/background.py) give stale claims back,
-- drop old transcripts and file background jobs of their own. A user may hold a session back
-- (backend/services/decisions.py), merge projects (backend/services/projects.py with
-- backend/repositories/alias.py) and state how projects are connected (backend/services/links.py with
-- backend/repositories/link.py). Names of projects and the paths of their notes are in
-- backend/consts/notes.py.
--
-- The files:
--   Common      lists, options, texts and Boolean tests; Common/Result is an operation that may raise
--               (backend/errors.py); Common/Table is what backend/repositories/__init__.py does to a
--               table, with Table/Laws on what a predicate of rows survives, Table/Members and
--               Table/Order on the rows of queries and Table/Distinct on rows of different identities;
--               Common/Texts Python's slices, joins and splits of a str; Common/Dict its dict;
--               Common/Members what is in a list that is made of others.
--   Models      the rows and enumerations of backend/models.py; Models/Json the JSON of a transcript.
--   Names       backend/consts/notes.py, one function each under its own name; Names/Laws.
--   Aliases     backend/repositories/alias.py and `ProjectService.resolve`; Aliases/Chains on where
--               names lead, and Aliases/Merged on a project that was merged away.
--   Queue       backend/repositories/job.py; Queue/Background its operations on background jobs, and
--               Queue/Unsummarized on sessions that wait; Queue/Service is `enqueue` of
--               backend/services/jobs.py, and Queue/Workers its other methods; Queue/Rebuild is
--               `rebuild` of backend/services/ingest.py, and Queue/Restarted is about it;
--               Queue/Decisions backend/services/decisions.py and backend/repositories/decision.py.
--               Queue/Merges is what a merge of projects does to the queue, and the list of jobs;
--               Queue/Documents and Queue/Handover are on the documents that are carried. Queue/Steps
--               lists every request of backend/routes/jobs.py and of the rebuild and sweep that changes
--               the queue as a step relation; Queue/Closed says what a property of rows has to survive,
--               Queue/Tables, Queue/Invariant, Queue/Carried and Queue/Induction carry such a property
--               along any run, and Queue/Rows and Queue/Sound are the row invariant. Queue/Tokens,
--               Queue/Claim, Queue/Enqueue and Queue/Retries are about one operation each.
--   Links       backend/repositories/link.py; Links/Service backend/services/links.py; Links/Graph the
--               relation that part_of links make, Links/Walk with Links/Frontier the walk of
--               `would_cycle`, Links/Pairs, Links/Table and Links/Hierarchy what saving one row does,
--               Links/Edits and Links/Dropped each operation, and Links/Runs any sequence of them.
--               Links/Carry is `carry_links` of backend/services/projects.py, which a merge of two
--               projects calls; Links/Carry/Weaken, Links/Carry/Moves, Links/Carry/Joined and
--               Links/Carry/Handed are about its steps.
--   Blobs       backend/services/blobs.py and backend/repositories/blob.py, with what needs the digests
--               in Blobs/Service; Blobs/Rows and Blobs/Manifest on the rows, Blobs/Complete on
--               `complete`, Blobs/Kept and Blobs/Genuine on what a reader is handed.
--   Accounts    backend/services/auth.py and backend/repositories/auth.py; Accounts/Throttle on the
--               sign-in.
--   Prompts     backend/services/prompts.py and backend/repositories/prompt.py; Prompts/Active on
--               `activate`; Prompts/Defaults is `seed`, `draft`, `amend` and `resolved`, with
--               Prompts/Serving, Prompts/Seeding and Prompts/Seeded on `seed`.
--   Uploads     backend/services/ingest.py with backend/repositories/storage.py and
--               backend/repositories/raw.py, with what takes a digest in Uploads/Service; Uploads/Parts
--               on an upload in parts.
--   Sweeps      backend/services/background.py, with `sweep` in Sweeps/Cycle; Sweeps/Waiting,
--               Sweeps/Attempts and Sweeps/Room on how many jobs a sweep files. Sweeps/Trivial is
--               `settle_trivial`, which reads the stored transcripts; Sweeps/Trivial/Rows and
--               Sweeps/Trivial/Outcome on what it does to the rows. Sweeps/Pairs is
--               `pairs_worth_judging`, with Sweeps/Pairs/Owned, Sweeps/Pairs/Combined and
--               Sweeps/Pairs/Judged.
--   Pins        `repinned` of backend/services/jobs.py and the pins of backend/repositories/decision.py;
--               Pins/Grouping.
--   Entries     backend/services/entries.py, backend/repositories/entry.py and `carry_entry` of
--               backend/services/projects.py; Entries/Sources.
--   Projects    `merge` and `delete` of backend/services/projects.py over the tables of the above;
--               Projects/Jobs, Projects/Rows and Projects/Listed on what a merge leaves of the merged
--               name in each table, Projects/Forgotten on all of them.
--   Summaries   backend/summarizers/prompt.py and `fold` of backend/summarizers/base.py: how a
--               transcript that is too long for a model is cut (Summaries/Chunks) and what is made of
--               the parts (Summaries/Folding).
--   Sessions    backend/summarizers/session.py. Sessions/Pipeline is its loop over groups of requests,
--               with the checkpoint that it saves; Sessions/Header the lines of its last prompt;
--               Sessions/Groups, Sessions/Found, Sessions/Keeps, Sessions/Resume and Sessions/Pruned are
--               about these.
--   Split       backend/services/split.py and `filed` of backend/summarizers/session.py; Split/Votes and
--               Split/Plans.
--   Hook        hooks/kbstore_hook.py: `push_transcript` against `append` of the server, where a request
--               or its answer may be lost; Hook/Rows, Hook/Appends, Hook/Sending, Hook/Pushing and
--               Hook/Arrival go from one row to the whole. Hook/Memories is `pull_memories` and
--               `push_memories` with `sync_memories` of backend/services/notes.py; Hook/Memories/Pull,
--               Hook/Memories/Drops, Hook/Memories/Merge and Hook/Memories/Push are about them.
--   Extract     backend/services/extract.py: `Segment` and `Reader`; Extract/Values and Extract/Tools
--               read the values in a line; Extract/Claude is `read_claude`, Extract/Codex is
--               `read_codex`, over entries that raise no error, and Extract/Reads is both with the
--               errors that they raise; Extract/Rendered is `render`, `substantial` and `read`;
--               Extract/Runs, Extract/Readings, Extract/Requests, Extract/Messages, Extract/Turns,
--               Extract/Traces and Extract/Trivial are about them.
--   Tests       the definitions and the theorems on concrete inputs.
--
-- How code corresponds to definitions. A table is the list of its rows. A request is one transaction
-- with the row locks that the code takes, so it is one step; `skip_locked` is a predicate on the rows
-- that other transactions hold. Each operation reads the clock once, as `now`, in seconds on the native
-- natural numbers; a comparison with `now - d` is written with `d` on the other side. A new identifier or
-- claim token is an argument, and where it has to be new that is a hypothesis. Rows that a query's order
-- leaves equal keep the order of the table. Python's tables of characters, the digest of a transcript
-- and `str` of a value that is no text are parameters; so is sha256 where files are named by it, and the
-- check of a password's hash. The one request that reads its row twice, `complete` of a blob, takes the
-- rows at the second read as an argument.
--
-- The one loop on fuel is `walk` of Links: its fuel is the number of edges and two, which is enough
-- because each project is expanded once and pushes at most the edges that leave it. The cut of a text
-- into pieces and of a file into blocks takes as many rounds as there are characters or bytes, each of
-- which takes one at least; `fold` has the five rounds of the code. All other loops are structural
-- recursion. What a language model answers is a parameter, an argument of the definitions that ask it, and
-- so is what becomes of each request of the hook.
--
-- Not modelled: note files and their front matter, so a completion takes the written note's path as an
-- argument and a memory file is rendered by a parameter; the file moves of a merge; HTTP itself, git,
-- tokens and cookies, the command line and the background prompts. They are input and output for the most
-- part. What a regular expression finds in a transcript and what `json.loads` makes of a text in it are
-- parameters, and so is the validation of a summary, which may refuse an answer. The query that `rebuild`
-- reads the stored transcripts with is an argument.
--
-- A request that raises an error leaves what was saved before: `append` keeps the row of a new session, and
-- `settle_trivial` and `rebuild` keep the rows before the transcript that cannot be read.
mod Common
pub mod Models
pub mod Names
pub mod Aliases
pub mod Queue
pub mod Links
pub mod Blobs
pub mod Accounts
pub mod Prompts
pub mod Uploads
pub mod Sweeps
pub mod Pins
pub mod Entries
pub mod Summaries
pub mod Sessions
pub mod Split
pub mod Projects
pub mod Hook
pub mod Extract
mod Tests
