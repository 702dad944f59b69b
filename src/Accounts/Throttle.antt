-- ===== src/Accounts/Throttle.antt =====
-- The sign-in of backend/services/auth.py: what it lets through, and its limits on failures.
use knowledgebase_storage.Common.{
  ℕ, suc, ◌+◌, ◌≤◌, String, ◌≡◌, refl, sym, ◌∙◌, subst, ◌⊎◌, inl, inr, Bool, true, false, ◌&&◌,
  some, List, [], ◌∷◌, arith, ◌==◌, eq_refl, leb, if◌then◌else◌, Bool-cases, Option-cases, length,
  All,
}
use knowledgebase_storage.Common.Result.{Result, ok, raised, signin_throttled, signin_failed}
use knowledgebase_storage.Common.Table.{count_where}
use knowledgebase_storage.Accounts.{
  User, LoginFailure, LoginSettings, Accounts, find_by_username, is_recent, recent_counts,
  record_failure, is_throttled, password_matches, signed_in, login,
}

module _ (verifies : String → String → Bool) (settings : LoginSettings) where
  -- A sign-in that succeeds is by a user of that name who is not deleted, with the password that the
  -- user's hash verifies, and not past a limit on failures; the answer is that user, seen now.
  login_lem :
      (now : ℕ) (username password client_ip : String) (s : Accounts) {seen : User}
      → (login verifies settings now username password client_ip s).0 ≡ ok seen
      → (user : User) × (find_by_username now username s.users ≡ some user)
        × (verifies user.password password ≡ true)
        × (seen ≡ record user { last_login_at = some now })
        × (is_throttled settings (
              recent_counts now settings.login_failure_window_seconds username client_ip
                s.login_failures)
            ≡ false)
  unfolding login signed_in password_matches
  login_lem now username password client_ip s {seen = seen} done =
      let counts =
        recent_counts now settings.login_failure_window_seconds username client_ip
          s.login_failures in
      elim (Bool-cases (is_throttled settings counts)) [
        | inl e ↦ absurd (let k : raised signin_throttled ≡ ok seen = rw (e, login) at done in cc)
        | inr e ↦ elim (Option-cases (find_by_username now username s.users)) [
          | inl f ↦ absurd (
              let k : raised signin_failed ≡ ok seen =
                rw (e, f, login, signed_in, password_matches) at done in
              cc)
          | inr (user, f) ↦ elim (Bool-cases (verifies user.password password)) [
            | inl v ↦
                let k : ok (record user { last_login_at = some now }) ≡ ok seen =
                  rw (e, f, v, login, signed_in, password_matches) at done in
                (user, f, v, ground (arith, k), e)
            | inr v ↦ absurd (
                let k : raised signin_failed ≡ ok seen =
                  rw (e, f, v, login, signed_in, password_matches) at done in
                cc)
          ]
        ]
      ]

  module _ (username client_ip : String) where
    -- Tries to sign in, each at its time and with its password.
    abbrev pub after_tries : List (ℕ × String) → Accounts → Accounts
    after_tries [] s = s
    after_tries ((t, password) ∷ rest) s =
        after_tries rest (login verifies settings t username password client_ip s).1

    -- No user of the name has this password.
    abbrev pub IsWrong : List User → ℕ × String → Type 0
    IsWrong users (t, password) =
        (user : User)
        → find_by_username t username users ≡ some user
        → verifies user.password password ≡ false

    wrong_try :
        (t : ℕ) (password : String) (s : Accounts)
        → IsWrong s.users (t, password)
        → (login verifies settings t username password client_ip s) ≡ (
            if is_throttled settings (
              recent_counts t settings.login_failure_window_seconds username client_ip
                s.login_failures)
            then (raised signin_throttled, s)
            else (
              raised signin_failed,
              record s { login_failures = record_failure t username client_ip s.login_failures },
            ))
    unfolding login signed_in password_matches
    wrong_try t password s wrong = elim (Option-cases (find_by_username t username s.users)) [
      | inl f ↦ rw f refl
      | inr (user, f) ↦ rw (f, wrong user f) refl
    ]

    module _ (now : ℕ) where
      abbrev window : ℕ
      window = settings.login_failure_window_seconds

      -- every failure that is kept counts now
      abbrev pub IsFreshFailures : List LoginFailure → Type 0
      IsFreshFailures failures = All (λ f. is_recent now window f ≡ true) failures

      count_recent :
          (test : LoginFailure → Bool) (t : ℕ) (failures : List LoginFailure)
          → t ≤ now
          → IsFreshFailures failures
          → count_where (λ f. is_recent t window f && test f) failures ≡ count_where test failures
      unfolding count_where
      count_recent test t [] le all = refl
      count_recent test t (f ∷ fs) le all =
          let still : is_recent t window f ≡ true = ground (arith, le, all.0) in
          rw (still, count_recent test t fs le all.1) refl

      abbrev counted : List LoginFailure → ℕ × ℕ
      counted failures = (
        count_where (λ f. f.username == username) failures,
        count_where (λ f. f.client_ip == client_ip) failures,
      )

      recent_counts-fresh :
          (t : ℕ) (failures : List LoginFailure)
          → t ≤ now
          → IsFreshFailures failures
          → recent_counts t window username client_ip failures ≡ counted failures
      unfolding recent_counts
      recent_counts-fresh t failures le all =
          rw
            (
              count_recent (λ f. f.username == username) t failures le all,
              count_recent (λ f. f.client_ip == client_ip) t failures le all,
            )
            refl

      -- wrong passwords at these times, not later than now and not before the window of now
      abbrev pub IsGuess : List User → ℕ × String → Type 0
      IsGuess users try = IsWrong users try × (try.0 ≤ now) × (now ≤ try.0 + window)

      -- as many failures as either limit
      abbrev Reaches : ℕ → List LoginFailure → Type 0
      Reaches n failures =
          (settings.login_max_failures_per_username ≤ n + (counted failures).0)
          ⊎ (settings.login_max_failures_per_ip ≤ n + (counted failures).1)

      Reaches-throttled :
          (failures : List LoginFailure)
          → Reaches 0 failures
          → is_throttled settings (counted failures) ≡ true
      Reaches-throttled failures (inl h) = ground (arith, h)
      Reaches-throttled failures (inr h) = ground (arith, h)

      throttled-Reaches :
          (failures : List LoginFailure) (n : ℕ)
          → is_throttled settings (counted failures) ≡ true
          → Reaches n failures
      throttled-Reaches failures n h =
          elim (Bool-cases (leb settings.login_max_failures_per_username (counted failures).0)) [
            | inl e ↦ inl (ground (arith, e))
            | inr e ↦ inr (ground (arith, e, h))
          ]

      recorded-Reaches :
          (t n : ℕ) (failures : List LoginFailure)
          → Reaches (suc n) failures
          → Reaches n (record_failure t username client_ip failures)
      unfolding record_failure count_where
      recorded-Reaches t n failures (inl h) = inl (rw (eq_refl username) (omega arith))
      recorded-Reaches t n failures (inr h) = inr (rw (eq_refl client_ip) (omega arith))

      tries-throttled :
          (tries : List (ℕ × String)) (s : Accounts)
          → IsFreshFailures s.login_failures
          → All (IsGuess s.users) tries
          → Reaches (length tries) s.login_failures
          → is_throttled settings
              (recent_counts now window username client_ip (after_tries tries s).login_failures)
            ≡ true
      unfolding record_failure
      tries-throttled [] s fresh all enough =
          rw (recent_counts-fresh now s.login_failures (omega arith) fresh)
            (Reaches-throttled s.login_failures enough)
      tries-throttled ((t, password) ∷ rest) s fresh (guess, all) enough =
          let failures = s.login_failures in
          let recorded : Accounts = record s {
            login_failures = record_failure t username client_ip failures;
          } in
          let tried = wrong_try t password s guess.0 in
          let counts = recent_counts-fresh t failures guess.1 fresh in
          let later : Result User × Accounts → Type 0 = λ r.
            is_throttled settings
              (recent_counts now window username client_ip (after_tries rest r.1).login_failures)
            ≡ true in
          elim (Bool-cases (is_throttled settings (counted failures))) [
            | inl e ↦
                let refused : login verifies settings t username password client_ip s
                    ≡ (raised signin_throttled, s) =
                  tried ∙ rw (counts, e) refl in
                subst later (sym refused)
                  (tries-throttled rest s fresh all (throttled-Reaches failures (length rest) e))
            | inr e ↦
                let refused : login verifies settings t username password client_ip s
                    ≡ (raised signin_failed, recorded) =
                  tried ∙ rw (counts, e) refl in
                subst later (sym refused) (
                  tries-throttled rest recorded (recorded_fresh t failures guess.2 fresh) all
                    (recorded-Reaches t (length rest) failures enough))
          ]
        where
          recorded_fresh :
              (t : ℕ) (failures : List LoginFailure)
              → now ≤ t + window
              → IsFreshFailures failures
              → IsFreshFailures (record_failure t username client_ip failures)
          recorded_fresh t failures le fresh = (ground (arith, le), fresh)

      -- Guessing is stopped: where only failures that count now are kept, and wrong passwords were tried
      -- from one address for one name, all within the window, as often as the limit for names or the
      -- limit for addresses, the next sign-in is refused, also with the right password.
      pub login-throttled :
          (tries : List (ℕ × String)) (s : Accounts)
          → IsFreshFailures s.login_failures
          → All (IsGuess s.users) tries
          → (settings.login_max_failures_per_username ≤ length tries)
            ⊎ (settings.login_max_failures_per_ip ≤ length tries)
          → (password : String)
          → (login verifies settings now username password client_ip (after_tries tries s)).0
            ≡ raised signin_throttled
      unfolding login
      login-throttled tries s fresh all enough password =
          rw (tries-throttled tries s fresh all (reached enough)) refl
        where
          reached :
              (settings.login_max_failures_per_username ≤ length tries)
                ⊎ (settings.login_max_failures_per_ip ≤ length tries)
              → Reaches (length tries) s.login_failures
          reached (inl h) = inl (omega arith)
          reached (inr h) = inr (omega arith)
