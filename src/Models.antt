-- ===== src/Models.antt =====
-- backend/models.py: the enumerations, constants and rows that the modelled services keep.
-- A time is a number of seconds, an identifier (UUID) is a number, `X | None` is an `Option`.
-- `NotePin`, `ProjectLink`, `ProjectAlias`, `Blob` and `RawTranscript` stand with the components
-- that keep them.
pub mod Json
use knowledgebase_storage.Common.{
  ℕ, zero, suc, ◌+◌, ◌-◌, ◌*◌, ◌/◌, ◌%◌, ◌^◌, ◌≤◌, ◌<◌, min, max, String, ◌≡◌, refl, sym, ap, ◌∙◌,
  subst, ◌≢◌, ◌↔◌, ◌⊎◌, inl, inr, Bool, true, false, not, ◌&&◌, ◌||◌, Option, none, some, List, [],
  ◌∷◌, ◌++◌, map, reverse, Memᴰ, arith, ◌==◌, eq_iff, eq_refl, ltb, leb, eqb, if◌then◌else◌,
  Bool-cases, Option-cases, is_none, is_some, holds_text, or_text, take_text, ◌<>◌, length, take,
  All, keep, contains,
}
use Json.{Message, Fields}

pub data JobStatus : Type 0 where
  pending claimed done failed : JobStatus

pub data JobKind : Type 0 where
  session memory_merge project_overview note_relations project_link : JobKind

pub data ProjectInference : Type 0 where
  remote worktree cwd scratch : ProjectInference

abbrev pub background_priority : ℕ
background_priority = 10

abbrev pub background_agent : String
background_agent = "kbstore"

abbrev pub background_device : String
background_device = "server"

-- `JobKind`'s values.
abbrev pub kind_value : JobKind → String
kind_value session = "session"
kind_value memory_merge = "memory_merge"
kind_value project_overview = "project_overview"
kind_value note_relations = "note_relations"
kind_value project_link = "project_link"

unfoldable pub background_session : JobKind → String → String
background_session kind target = kind_value kind <> (":" <> target)

abbrev pub is_session : JobKind → Bool
is_session session = true
is_session _ = false

abbrev pub is_pending : JobStatus → Bool
is_pending pending = true
is_pending _ = false

abbrev pub is_claimed : JobStatus → Bool
is_claimed claimed = true
is_claimed _ = false

abbrev pub is_done : JobStatus → Bool
is_done done = true
is_done _ = false

abbrev pub is_failed : JobStatus → Bool
is_failed failed = true
is_failed _ = false

-- `status in {JobStatus.DONE, JobStatus.FAILED}`
abbrev pub is_settled : JobStatus → Bool
is_settled done = true
is_settled failed = true
is_settled _ = false

-- The columns (agent, device, session_id), under which a session is unique in each table.
pub record SessionKey : Type 0 where
  pub agent : String
  pub device : String
  pub session_id : String

abbrev pub key_eq : SessionKey → SessionKey → Bool
key_eq a b = a.agent == b.agent && (a.device == b.device && a.session_id == b.session_id)

-- What a device posts.
pub record JobBase : Type 0 where
  pub key : SessionKey
  pub model : Option String
  pub project : String
  pub project_inference : ProjectInference
  pub cwd : Option String
  pub transcript : Option (List Message)
  pub started_at : Option ℕ
  pub ended_at : Option ℕ

pub record Job : Type 0 where
  pub id : ℕ
  pub created_at : ℕ
  pub updated_at : ℕ
  pub base : JobBase
  pub open base use *
  pub kind : JobKind
  pub priority : ℕ
  pub status : JobStatus
  pub last_activity_at : ℕ
  pub transcript_digest : Option String
  pub last_request : Option String
  pub claimed_at : Option ℕ
  pub claimed_by : Option String
  pub claim_token : Option ℕ
  pub heartbeat_at : Option ℕ
  pub next_attempt_at : Option ℕ
  pub attempts : ℕ
  pub last_error : Option String
  pub progress : Option String
  pub checkpoint : Option Fields
  pub summarizer : Option String
  pub note_path : Option String
  pub completed_at : Option ℕ
  pub refined_at : Option ℕ

-- The defaults of a new `Job` row.
unfoldable pub new_job : ℕ → JobBase → ℕ → Job
new_job id payload now = record {
  id = id;
  created_at = now;
  updated_at = now;
  base = payload;
  kind = session;
  priority = 0;
  status = pending;
  last_activity_at = now;
  transcript_digest = none;
  last_request = none;
  claimed_at = none;
  claimed_by = none;
  claim_token = none;
  heartbeat_at = none;
  next_attempt_at = none;
  attempts = 0;
  last_error = none;
  progress = none;
  checkpoint = none;
  summarizer = none;
  note_path = none;
  completed_at = none;
  refined_at = none;
}

pub data NoteVerdict : Type 0 where
  hide purge : NoteVerdict

pub record NoteDecision : Type 0 where
  pub id : ℕ
  pub key : SessionKey
  pub verdict : NoteVerdict
  pub reason : String

pub record LlmProvider : Type 0 where
  pub name : String
  pub priority : ℕ
  pub background_jobs : Bool
  pub enabled : Bool

-- The settings that the queue reads.
pub record RuntimeSetting : Type 0 where
  pub job_max_attempts : ℕ
  pub job_idle_seconds : ℕ
  pub transcript_retention_hours : ℕ
  pub stale_claim_hours : ℕ
  pub background_sweep_hours : ℕ
