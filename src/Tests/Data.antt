-- ===== src/Tests/Data.antt =====
-- Inputs that the tests share. The tables of characters are those of lowercase ASCII text.
use Prim.Native.Char.{Char, code}
use knowledgebase_storage.Common.{
  ℕ, String, Bool, ◌&&◌, ◌||◌, Option, none, some, List, [], ◌∷◌, leb, eqb,
}
use knowledgebase_storage.Names.{CharTables}
use knowledgebase_storage.Models.{JobBase, SessionKey, remote}
use knowledgebase_storage.Models.Json.{Json, Message, field, end_fields, text}
use knowledgebase_storage.Queue.Service.{Queue}

abbrev pub between : ℕ → ℕ → Char → Bool
between lo hi c = leb lo (code c) && leb (code c) hi

abbrev pub ascii : CharTables
ascii = record {
  is_space = λ c. leb (code c) 32;
  is_word = λ c. between b'a' b'z' c || between b'0' b'9' c || eqb (code c) b'_';
  lower = λ s. s;
  fold = λ c. c;
}

-- A digest that tells the test transcripts apart.
abbrev pub digest : Option (List Message) → String
digest none = "none"
digest (some []) = "empty"
digest (some (_ ∷ [])) = "one"
digest (some (_ ∷ _ ∷ _)) = "more"

abbrev pub shown : Json → String
shown _ = "?"

abbrev pub says : String → Message
says s = field "role" (text "user") (field "content" (text s) end_fields)

abbrev pub key : SessionKey
key = record { agent = "claude"; device = "laptop"; session_id = "s1" }

abbrev pub post : JobBase
post = record {
  key = key;
  model = none;
  project = "demo";
  project_inference = remote;
  cwd = none;
  transcript = some (says "please fix it" ∷ []);
  started_at = none;
  ended_at = none;
}

abbrev pub longer : JobBase
longer = record post { transcript = some (says "please fix it" ∷ says "and test it" ∷ []) }

abbrev pub empty : Queue
empty = record {
  jobs = [];
  decisions = [];
  providers = [];
  aliases = [];
  settings = record {
    job_max_attempts = 3;
    job_idle_seconds = 600;
    transcript_retention_hours = 24;
    stale_claim_hours = 1;
    background_sweep_hours = 24;
  };
}
