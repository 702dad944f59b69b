-- ===== src/Tests/Accounts.antt =====
-- One user, `ann`, whose password is guessed twice from one address. Passwords are their own hashes.
use knowledgebase_storage.Common.{
  ℕ, String, ◌≡◌, refl, subst, inr, Bool, false, none, some, [], ◌∷◌, arith, ◌==◌,
}
use knowledgebase_storage.Common.Result.{ok, raised, signin_throttled}
use knowledgebase_storage.Accounts.{User, Accounts, LoginSettings, login, find_by_username}
use knowledgebase_storage.Accounts.Throttle.{login-throttled, after_tries, IsWrong}

abbrev plain : String → String → Bool
plain hash password = hash == password

abbrev ann : User
ann = record {
  id = 1;
  username = "ann";
  password = "secret";
  password_updated_at = 0;
  last_login_at = none;
  deleted_at = none;
}

abbrev limits : LoginSettings
limits = record {
  login_failure_window_seconds = 900;
  login_max_failures_per_ip = 2;
  login_max_failures_per_username = 20;
}

abbrev accounts : Accounts
accounts = record { users = ann ∷ []; api_keys = []; login_failures = [] }

enters :
    (login plain limits 1000 "ann" "secret" "home" accounts).0
    ≡ ok (record ann { last_login_at = some 1000 })
unfolding login
enters = refl

IsWrong-guess : (t : ℕ) → IsWrong plain limits "ann" "home" (ann ∷ []) (t, "guess")
unfolding find_by_username
IsWrong-guess t user f =
    let same_user : ann ≡ user = ground (arith, f) in
    subst (λ (u : User). plain u.password "guess" ≡ false) same_user refl

login-throttled_example :
    (login plain limits 1000 "ann" "secret" "home"
      (after_tries plain limits "ann" "home" ((990, "guess") ∷ (995, "guess") ∷ []) accounts)).0
    ≡ raised signin_throttled
login-throttled_example =
    login-throttled plain limits "ann" "home" 1000 ((990, "guess") ∷ (995, "guess") ∷ []) accounts
      tt
      (
        (IsWrong-guess 990, omega arith, omega arith),
        ((IsWrong-guess 995, omega arith, omega arith), tt),
      )
      (inr (omega arith)) "secret"
