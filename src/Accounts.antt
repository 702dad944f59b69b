-- ===== src/Accounts.antt =====
-- backend/services/auth.py and backend/repositories/auth.py: the sign-in with its limit on failures, and
-- the keys of the API. A password is checked by `verifies`, which is argon2's, and a key is found by its
-- digest. Tokens and cookies are not modelled.
pub mod Throttle
use knowledgebase_storage.Common.{
  ℕ, zero, suc, ◌+◌, ◌-◌, ◌*◌, ◌/◌, ◌%◌, ◌^◌, ◌≤◌, ◌<◌, min, max, String, ◌≡◌, refl, sym, ap, ◌∙◌,
  subst, ◌≢◌, ◌↔◌, ◌⊎◌, inl, inr, Bool, true, false, not, ◌&&◌, ◌||◌, Option, none, some, List, [],
  ◌∷◌, ◌++◌, map, reverse, Memᴰ, arith, ◌==◌, eq_iff, eq_refl, ltb, leb, eqb, if◌then◌else◌,
  Bool-cases, Option-cases, is_none, is_some, holds_text, or_text, take_text, ◌<>◌, length,
  length-append, take, All, keep, contains,
}
use knowledgebase_storage.Common.Result.{
  Result, ok, raised, resource_not_found, signin_throttled, signin_failed, invalid_api_key, ◌>>=◌,
  ◌>>◌, raise_if,
}
use knowledgebase_storage.Common.Table.{first, put, count_where, delete_where, update_where}

pub record User : Type 0 where
  pub id : ℕ
  pub username : String
  pub password : String
  pub password_updated_at : ℕ
  pub last_login_at : Option ℕ
  pub deleted_at : Option ℕ

pub record ApiKey : Type 0 where
  pub id : ℕ
  pub user_id : ℕ
  pub name : String
  pub key_digest : String
  pub last_used_at : Option ℕ
  pub deleted_at : Option ℕ

pub record LoginFailure : Type 0 where
  pub username : String
  pub client_ip : String
  pub created_at : ℕ

pub record LoginSettings : Type 0 where
  pub login_failure_window_seconds : ℕ
  pub login_max_failures_per_ip : ℕ
  pub login_max_failures_per_username : ℕ

pub record Accounts : Type 0 where
  pub users : List User
  pub api_keys : List ApiKey
  pub login_failures : List LoginFailure

-- `deleted_at is None or deleted_at > now`
abbrev pub not_deleted : ℕ → Option ℕ → Bool
not_deleted now none = true
not_deleted now (some t) = ltb now t

unfoldable pub find_by_username : ℕ → String → List User → Option User
unfolding first
find_by_username now username users =
    first (λ u. u.username == username && not_deleted now u.deleted_at) users

-- `created_at >= now - window`
abbrev pub is_recent : ℕ → ℕ → LoginFailure → Bool
is_recent now window f = leb now (f.created_at + window)

unfoldable pub recent_counts : ℕ → ℕ → String → String → List LoginFailure → ℕ × ℕ
unfolding count_where
recent_counts now window username client_ip failures = (
  count_where (λ f. is_recent now window f && f.username == username) failures,
  count_where (λ f. is_recent now window f && f.client_ip == client_ip) failures,
)

unfoldable pub record_failure : ℕ → String → String → List LoginFailure → List LoginFailure
record_failure now username client_ip failures =
    record { username = username; client_ip = client_ip; created_at = now } ∷ failures

unfoldable pub clear : String → String → List LoginFailure → List LoginFailure
unfolding delete_where
clear username client_ip failures =
    delete_where (λ f. f.username == username && f.client_ip == client_ip) failures

unfoldable pub purge_failures : (before : ℕ) → List LoginFailure → List LoginFailure
unfolding delete_where
purge_failures before failures = delete_where (λ f. ltb f.created_at before) failures

unfoldable pub save_user : User → List User → List User
unfolding put
save_user user users = put (λ a b. eqb a.id b.id) user users

-- `by_username >= … or by_ip >= …`
abbrev pub is_throttled : LoginSettings → ℕ × ℕ → Bool
is_throttled settings (by_username, by_ip) =
    leb settings.login_max_failures_per_username by_username
    || leb settings.login_max_failures_per_ip by_ip

module _ (verifies : String → String → Bool) where
  -- where there is no user, a placeholder's password is compared, and the answer is no
  unfoldable pub password_matches : Option User → String → Bool
  password_matches none password = false
  password_matches (some user) password = verifies user.password password

  unfoldable pub signed_in : ℕ → String → String → Option User → Accounts → Result User × Accounts
  unfolding clear save_user record_failure
  signed_in now username client_ip none s = (
    raised signin_failed,
    record s { login_failures = record_failure now username client_ip s.login_failures },
  )
  signed_in now username client_ip (some user) s =
      let seen = record user { last_login_at = some now } in
      (
        ok seen,
        record s {
          users = save_user seen s.users;
          login_failures = clear username client_ip s.login_failures;
        },
      )

  -- the user whose password matches
  abbrev pub matching : Option User → String → Option User
  matching user password = if password_matches user password then user else none

  unfoldable pub login :
      LoginSettings
      → (now : ℕ) (username password client_ip : String) → Accounts
      → Result User × Accounts
  unfolding recent_counts find_by_username password_matches signed_in
  login settings now username password client_ip s =
      let counts =
        recent_counts now settings.login_failure_window_seconds username client_ip
          s.login_failures in
      let user = matching (find_by_username now username s.users) password in
      let tried = signed_in now username client_ip user s in
      if is_throttled settings counts then (raised signin_throttled, s) else tried

-- The user of a key, where neither of them is deleted.
unfoldable pub owner_of : ℕ → List User → ApiKey → Option User
unfolding first
owner_of now users key = first (λ u. eqb u.id key.user_id && not_deleted now u.deleted_at) users

unfoldable pub find_usable : ℕ → String → List ApiKey → List User → Option (ApiKey × User)
unfolding owner_of
find_usable now key_digest [] users = none
find_usable now key_digest (k ∷ ks) users =
    let rest = find_usable now key_digest ks users in
    if k.key_digest == key_digest && not_deleted now k.deleted_at
    then elim (owner_of now users k) [ none ↦ rest | some user ↦ some (k, user) ]
    else rest

abbrev pub api_key_touch_interval : ℕ
api_key_touch_interval = 300

-- `last_used_at is None or now - last_used_at >= API_KEY_TOUCH_INTERVAL`
abbrev pub wants_touch : ℕ → Option ℕ → Bool
wants_touch now none = true
wants_touch now (some t) = leb (t + api_key_touch_interval) now

unfoldable pub touch : ℕ → ApiKey → List ApiKey → List ApiKey
unfolding put
touch now key keys =
    let saved = put (λ a b. eqb a.id b.id) (record key { last_used_at = some now }) keys in
    if wants_touch now key.last_used_at then saved else keys

unfoldable pub authenticated : ℕ → Option (ApiKey × User) → Accounts → Result User × Accounts
unfolding touch
authenticated now none s = (raised invalid_api_key, s)
authenticated now (some (key, user)) s = (ok user, record s { api_keys = touch now key s.api_keys })

-- `authenticate_api_key` of a key that is not the worker's
unfoldable pub authenticate_api_key : ℕ → (key_digest : String) → Accounts → Result User × Accounts
unfolding authenticated find_usable
authenticate_api_key now key_digest s =
    authenticated now (find_usable now key_digest s.api_keys s.users) s

-- `issue`: zero days is no end
unfoldable pub issue :
    (id now user_id : ℕ)
    → (name key_digest : String) → (expires_in_days : Option ℕ) → List ApiKey
    → List ApiKey
issue id now user_id name key_digest expires_in_days keys =
    record {
      id = id;
      user_id = user_id;
      name = name;
      key_digest = key_digest;
      last_used_at = none;
      deleted_at = elim expires_in_days [
        | none ↦ none
        | some days ↦ if eqb days 0 then none else some (now + days * 86400)
      ];
    }
    ∷ keys

unfoldable pub deleted_key : ℕ → Option ApiKey → List ApiKey → Result (List ApiKey)
unfolding put
deleted_key now none keys = raised resource_not_found
deleted_key now (some key) keys =
    let saved = put (λ a b. eqb a.id b.id) (record key { deleted_at = some now }) keys in
    let refused : Result (List ApiKey) = raised resource_not_found in
    if not_deleted now key.deleted_at then ok saved else refused

unfoldable pub soft_delete : (now id : ℕ) → List ApiKey → Result (List ApiKey)
unfolding deleted_key first
soft_delete now id keys = deleted_key now (first (λ k. eqb k.id id) keys) keys
