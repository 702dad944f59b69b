-- ===== src/Queue/Enqueue.antt =====
-- `enqueue` of backend/services/jobs.py: a session that is posted again.
use knowledgebase_storage.Common.{
  ℕ, String, ◌≡◌, refl, ap, inl, inr, Bool, true, false, Option, none, some, List, [], ◌∷◌, arith,
  eq_iff, eq_refl, eqb, Bool-cases, is_some, holds_text,
}
use knowledgebase_storage.Common.Table.{first, put}
use knowledgebase_storage.Names.{CharTables, named_project}
use knowledgebase_storage.Aliases.{resolve}
use knowledgebase_storage.Models.{Job, JobBase, SessionKey, key_eq, is_settled, new_job}
use knowledgebase_storage.Models.Json.{Json, Message}
use knowledgebase_storage.Queue.{same_row, save, find_by_session, decision_of}
use knowledgebase_storage.Queue.Service.{
  Queue, enqueue, enqueue_row, settled_job, fresh_job, continued_job, overlay,
}

pub key_refl : (k : SessionKey) → key_eq k k ≡ true
key_refl k = ground (arith, eq_refl k.agent, eq_refl k.device, eq_refl k.session_id)

-- A row that was saved under its session is the row found there, if it took the place of the row found
-- before, or there was none.
find_by_session-put :
    (key : SessionKey) (x : Job) (jobs : List Job)
    → key_eq x.key key ≡ true
    → ((j : Job) → find_by_session key jobs ≡ some j → eqb x.id j.id ≡ true)
    → find_by_session key (put same_row x jobs) ≡ some x
unfolding find_by_session put first
find_by_session-put key x [] e same = rw e
find_by_session-put key x (y ∷ ys) e same = elim (Bool-cases (eqb x.id y.id)) [
  | inl h ↦ rw (h, e)
  | inr h ↦ elim (Bool-cases (key_eq y.key key)) [
    | inl k ↦ absurd (cc (h, same y (rw k)))
    | inr k ↦ rw (h, k) (find_by_session-put key x ys e (λ j f. same j (rw k f)))
  ]
]

pub find_by_session-save :
    (now : ℕ) (key : SessionKey) (x : Job) (jobs : List Job)
    → key_eq x.key key ≡ true
    → ((j : Job) → find_by_session key jobs ≡ some j → eqb x.id j.id ≡ true)
    → find_by_session key (save now x jobs) ≡ some (record x { updated_at = now })
unfolding save
find_by_session-save now key x jobs e same =
    find_by_session-put key (record x { updated_at = now }) jobs e same

eqb_refl : (n : ℕ) → eqb n n ≡ true
eqb_refl n = ground arith

holds_text_eq : (o : Option String) (s : String) → holds_text o s ≡ true → o ≡ some s
holds_text_eq none s h = cc
holds_text_eq (some t) s h = ap some ((eq_iff t s).0 h)

same_id : (a j i : Job) → a.id ≡ j.id → some j ≡ some i → eqb a.id i.id ≡ true
same_id a j i e f = ground arith

module _ (u : CharTables) (digest_of : Option (List Message) → String) (shown : Json → String) where
  -- The row of a posted session: its digest is the transcript's, and where that digest is new the
  -- session waits to be summarized or is being summarized.
  record IsFiled (b : JobBase) (old : Option Job) (j : Job) : Type 0 where
    pub digest : j.transcript_digest ≡ some (digest_of b.transcript)
    pub open_again :
        ((o : Job) → old ≡ some o → holds_text o.transcript_digest (digest_of b.transcript) ≡ false)
        → is_settled j.status ≡ false
    pub posted :
        ((o : Job) → old ≡ some o → holds_text o.transcript_digest (digest_of b.transcript) ≡ false)
        → (j.project ≡ b.project)
          × ((messages : List Message)
              → b.transcript ≡ some messages
              → j.transcript ≡ some messages)

  fresh-IsFiled :
      (id now : ℕ) (b : JobBase) (old : Option Job)
      → IsFiled b old (record (fresh_job u digest_of shown id now b) { updated_at = now })
  unfolding fresh_job new_job
  fresh-IsFiled id now b old = record {
    digest = refl;
    open_again = λ _. refl;
    posted = λ _. (refl, λ messages e. e);
  }

  continued-IsFiled :
      (now : ℕ) (b : JobBase) (old : Option Job) (j : Job)
      → IsFiled b old (record (continued_job u digest_of shown now b j) { updated_at = now })
  unfolding continued_job overlay
  continued-IsFiled now b old j = record {
    digest = ground arith;
    open_again = λ _. ground arith;
    posted = λ _. (ground arith, λ messages e. ground (arith, e));
  }

  continued-key :
      (now : ℕ) (b : JobBase) (j : Job) → (continued_job u digest_of shown now b j).key ≡ b.key
  unfolding continued_job overlay
  continued-key now b j = ground arith

  continued-id :
      (now : ℕ) (b : JobBase) (j : Job) → (continued_job u digest_of shown now b j).id ≡ j.id
  unfolding continued_job
  continued-id now b j = ground arith

  -- What stands under the posted session after `enqueue_row`.
  abbrev Filed : JobBase → Bool → Option Job → List Job → Type 0
  Filed b held old jobs =
      (j : Job) × (find_by_session b.key jobs ≡ some j) × (held ≡ false → IsFiled b old j)

  enqueue_row-files :
      (id now : ℕ) (b : JobBase) (held : Bool) (o : Option Job) (jobs : List Job)
      → find_by_session b.key jobs ≡ o
      → Filed b held o (enqueue_row u digest_of shown id now b held o jobs).2
  unfolding enqueue_row
  enqueue_row-files id now b true (some j) jobs e = (j, e, λ h. absurd (cc))
  enqueue_row-files id now b true none jobs e = (
    record (settled_job u digest_of shown id now b) { updated_at = now },
    find_by_session-save now b.key (settled_job u digest_of shown id now b) jobs
        (unfold settled_job new_job in key_refl b.key) (λ j f. absurd (cc (e, f))),
    λ h. absurd (cc),
  )
  enqueue_row-files id now b false none jobs e = (
    record (fresh_job u digest_of shown id now b) { updated_at = now },
    find_by_session-save now b.key (fresh_job u digest_of shown id now b) jobs
        (unfold fresh_job new_job in key_refl b.key) (λ j f. absurd (cc (e, f))),
    λ _. fresh-IsFiled id now b none,
  )
  enqueue_row-files id now b false (some j) jobs e =
      elim (Bool-cases (holds_text j.transcript_digest (digest_of b.transcript))) [
        | inl h ↦ rw h (
          j,
          e,
          λ _. record {
            digest = holds_text_eq j.transcript_digest (digest_of b.transcript) h;
            open_again = λ new. absurd (cc (new j refl, h));
            posted = λ new. absurd (cc (new j refl, h));
          },
        )
        | inr h ↦ rw h (
          record (continued_job u digest_of shown now b j) { updated_at = now },
          find_by_session-save now b.key (continued_job u digest_of shown now b j) jobs
              (rw (continued-key now b j) (key_refl b.key))
              (λ i f.
                same_id (continued_job u digest_of shown now b j) j i (continued-id now b j)
                  (cc (e, f))),
          λ _. continued-IsFiled now b (some j) j,
        )
      ]

  repeated :
      (id now : ℕ) (b : JobBase) (held : Bool) (j : Job) (jobs : List Job)
      → (held ≡ false → j.transcript_digest ≡ some (digest_of b.transcript))
      → ((enqueue_row u digest_of shown id now b held (some j) jobs).1 ≡ false)
        × ((enqueue_row u digest_of shown id now b held (some j) jobs).2 ≡ jobs)
  unfolding enqueue_row
  repeated id now b true j jobs d = (refl, refl)
  repeated id now b false j jobs d = rw (d refl, eq_refl) (refl, refl)

  -- The same row in both: a session that is posted again with the same transcript.
  enqueue_row-again :
      (id now id' now' : ℕ) (b : JobBase) (held : Bool) (o : Option Job) (jobs : List Job)
      → find_by_session b.key jobs ≡ o
      → let rest = (enqueue_row u digest_of shown id now b held o jobs).2 in
        let again =
          enqueue_row u digest_of shown id' now' b held (find_by_session b.key rest) rest in
        (again.1 ≡ false) × (again.2 ≡ rest)
  enqueue_row-again id now id' now' b held o jobs e =
      let (j, found, is) = enqueue_row-files id now b held o jobs e in
      rw found (
        repeated id' now' b held j (enqueue_row u digest_of shown id now b held o jobs).2
          (λ h. (is h).digest))

  abbrev named : Queue → JobBase → JobBase
  named q payload = record payload {
    project = resolve u q.aliases (named_project u payload.project);
  }

  -- A session that is posted twice with one transcript, held back or not: the second post is answered
  -- as one of a session that existed, and changes no table, whatever identifier and time it comes with.
  pub enqueue-again :
      (id now id' now' : ℕ) (payload : JobBase) (q : Queue)
      → let r = (enqueue u digest_of shown id now payload q).2 in
        ((enqueue u digest_of shown id' now' payload r).1 ≡ false)
        × ((enqueue u digest_of shown id' now' payload r).2 ≡ r)
  unfolding enqueue
  enqueue-again id now id' now' payload q =
      let (old, same) =
        enqueue_row-again id now id' now' (named q payload)
          (is_some (decision_of payload.key q.decisions)) (find_by_session payload.key q.jobs)
          q.jobs refl in
      (old, ap (λ (jobs : List Job). record q { jobs = jobs }) same)

  -- A posted session that no decision holds back has a row afterwards, with the digest of the posted
  -- transcript; if the session had no row with that digest before, its row is pending or claimed, also
  -- when an earlier summary was done or had failed, stands under the project that the posted name leads
  -- to, and holds the transcript, if one was posted.
  pub enqueue-files :
      (id now : ℕ) (payload : JobBase) (q : Queue)
      → decision_of payload.key q.decisions ≡ none
      → (j : Job) × (find_by_session payload.key (enqueue u digest_of shown id now payload q).2.jobs
          ≡ some j)
        × (j.transcript_digest ≡ some (digest_of payload.transcript))
        × (((o : Job)
              → find_by_session payload.key q.jobs ≡ some o
              → holds_text o.transcript_digest (digest_of payload.transcript) ≡ false)
            → (is_settled j.status ≡ false)
              × (j.project ≡ resolve u q.aliases (named_project u payload.project))
              × ((messages : List Message)
                  → payload.transcript ≡ some messages
                  → j.transcript ≡ some messages))
  unfolding enqueue
  enqueue-files id now payload q free =
      let (j, found, is) =
        enqueue_row-files id now (named q payload) (is_some (decision_of payload.key q.decisions))
          (find_by_session payload.key q.jobs) q.jobs refl in
      let filed = is (rw free) in
      (
        j,
        found,
        filed.digest,
        λ new. (filed.open_again new, (filed.posted new).0, (filed.posted new).1),
      )
