-- ===== src/Auth.antt =====
-- internal/domain/auth/service_impl.go: registration, login, refresh, logout and the check of access
-- tokens. The user repository, the cache and the cryptography are parameters; so is the Unicode
-- table behind `strings.ToLower`.
pub mod Keys
pub mod Cache
pub mod Reliable
pub mod Session
pub mod Progress
pub mod Issue
pub mod Rotation
pub mod Login
pub mod Registration
pub mod Tests
pub mod LifeTests
use chatter_stack.Base.{
  ℕ, String, cat, Bool, true, false, Option, none, some, List, [], ◌∷◌, ℤ, eqb, not, trim_space,
  if◌then◌else◌,
}
use chatter_stack.Errors.{
  Error, auth, other, is_no_rows, is_cache_miss, email_already_used, invalid_credentials,
  invalid_refresh_token, invalid_access_token, missing_username, missing_email, missing_password,
}
use chatter_stack.Exec.{
  Result, ok, err, Exec, pure, fail, map_err, ignore, try, refuse, ◌>>=◌, ◌>>◌,
}
use chatter_stack.Models.{User, status_online, status_offline}
use chatter_stack.Utils.{Crypto, hash_password, compare_hash_and_password, generate_opaque_token}
use Keys.{session_key, access_key, access_session_key, refresh_key}

-- `create` returns the user as the repository has completed it.
pub record UserRepository (W : Type 0) : Type 0 where
  pub create : User → Exec W User
  pub get_by_email : String → Exec W User
  pub get_by_id : String → Exec W User
  pub update_status : String → String → ℕ → Exec W (Unit {0})

pub record TokenCache (W : Type 0) : Type 0 where
  pub get : String → Exec W String
  pub set : String → String → ℤ → Exec W (Unit {0})
  pub delete : String → Exec W (Unit {0})

pub record Service (W : Type 0) : Type 0 where
  pub users : UserRepository W
  pub cache : TokenCache W
  pub access_ttl : ℤ
  pub refresh_ttl : ℤ
  pub crypto : Crypto W
  pub now : W → ℕ
  pub to_lower : String → String

pub record RegisterInput : Type 0 where
  pub username : String
  pub email : String
  pub password : String

pub record TokenPair : Type 0 where
  pub access_token : String
  pub refresh_token : String

abbrev pub is_blank : String → Bool
is_blank s = eqb (trim_space s) ""

-- What a look-up in the cache or the database reports when the entry is not there.
abbrev pub expired_or : Error → Error
expired_or e = if is_cache_miss e then auth invalid_refresh_token else e

abbrev pub no_user_or : Error → Error → Error
no_user_or instead e = if is_no_rows e then instead else e

-- `if err := m; err != nil { cleanup; return nil, err }`
unwind : {W A : Type 0} → Result A → Exec W (Unit {0}) → Exec W A
unwind (ok a) cleanup w = (ok a, w)
unwind (err e) cleanup w = (err e, (cleanup w).1)

on_failure : {W A : Type 0} → Exec W A → Exec W (Unit {0}) → Exec W A
unfolding unwind
on_failure m cleanup w = unwind (m w).0 cleanup (m w).1

module _ {W : Type 0} (s : Service W) where
  open s use {users, cache, crypto, access_ttl, refresh_ttl}

  pub normalize_email : String → String
  normalize_email email = trim_space (s.to_lower email)

  pub validate_register_input : RegisterInput → Exec W (Unit {0})
  validate_register_input input = do
    refuse (is_blank input.username) (auth missing_username)
    refuse (is_blank input.email) (auth missing_email)
    refuse (eqb input.password "") (auth missing_password)

  -- What the look-up of the email says: taken, free, or not known.
  require_free : Result User → Exec W (Unit {0})
  require_free (ok user) = fail (auth email_already_used)
  require_free (err e) = refuse (not (is_no_rows e)) e

  abbrev pub new_user : RegisterInput → String → User
  new_user input hash = record {
    id = "";
    username = trim_space input.username;
    email = normalize_email input.email;
    password_hash = hash;
    status = status_offline;
    last_seen_at = 0;
    created_at = 0;
  }

  pub register : RegisterInput → Exec W User
  unfolding validate_register_input require_free
  register input = do
    validate_register_input input
    found ← try (users.get_by_email (normalize_email input.email))
    require_free found
    hash ← hash_password crypto input.password
    user ← users.create (new_user input hash)
    pure (record user { password_hash = "" })

  drop : String → (String → String) → String → Exec W (Unit {0})
  drop key other_key token = do ignore (cache.delete key); ignore (cache.delete (other_key token))

  drop_found : String → (String → String) → Result String → Exec W (Unit {0})
  unfolding drop
  drop_found key other_key (ok token) = drop key other_key token
  drop_found key other_key (err e) = refuse (not (is_cache_miss e)) e

  -- The entry of a key, and the entry of the token that it names.
  pub drop_entry : String → (String → String) → Exec W (Unit {0})
  unfolding drop_found
  drop_entry key other_key = do token ← try (cache.get key); drop_found key other_key token

  pub invalidate_session : String → Exec W (Unit {0})
  unfolding drop_entry
  invalidate_session user_id =
      drop_entry (session_key user_id) refresh_key
      >> drop_entry (access_session_key user_id) access_key

  delete_session : String → Exec W (Unit {0})
  delete_session id = ignore (cache.delete (session_key id))

  delete_refresh : String → String → Exec W (Unit {0})
  unfolding delete_session
  delete_refresh id refresh = delete_session id >> ignore (cache.delete (refresh_key refresh))

  delete_access : String → String → String → Exec W (Unit {0})
  unfolding delete_refresh
  delete_access id refresh access =
      delete_refresh id refresh >> ignore (cache.delete (access_key access))

  delete_all : String → String → String → Exec W (Unit {0})
  unfolding delete_access
  delete_all id refresh access =
      delete_access id refresh access >> ignore (cache.delete (access_session_key id))

  -- The four entries of a session, each undone with those before it if it cannot be written.
  pub store_tokens : String → String → String → Exec W (Unit {0})
  unfolding delete_all on_failure
  store_tokens id access refresh = do
    cache.set (session_key id) refresh refresh_ttl
    on_failure (cache.set (refresh_key refresh) id refresh_ttl) (delete_session id)
    on_failure (cache.set (access_key access) id access_ttl) (delete_access id refresh access)
    on_failure (cache.set (access_session_key id) access access_ttl) (delete_all id refresh access)

  pub issue_tokens : User → Exec W TokenPair
  unfolding invalidate_session store_tokens
  issue_tokens user = do
    invalidate_session user.id
    access ← generate_opaque_token crypto "access"
    refresh ← generate_opaque_token crypto "refresh"
    store_tokens user.id access refresh
    pure (record { access_token = access; refresh_token = refresh })

  mark : String → String → Exec W (Unit {0})
  mark id status w = users.update_status id status (s.now w) w

  -- Both `Login` and `Refresh` end in this way.
  pub start_session : User → Exec W TokenPair
  unfolding mark
  start_session user = do tokens ← issue_tokens user; mark user.id status_online; pure tokens

  pub login : String → String → Exec W TokenPair
  unfolding start_session
  login raw password = do
    let email = normalize_email raw
    refuse (eqb email "") (auth missing_email)
    refuse (eqb password "") (auth missing_password)
    user ← map_err (no_user_or (auth invalid_credentials)) (users.get_by_email email)
    map_err (λ e. auth invalid_credentials)
        (λ w. (compare_hash_and_password crypto user.password_hash password, w))
    start_session user

  pub refresh : String → Exec W TokenPair
  unfolding start_session
  refresh raw = do
    let token = trim_space raw
    refuse (eqb token "") (auth invalid_refresh_token)
    user_id ← map_err expired_or (cache.get (refresh_key token))
    active ← map_err expired_or (cache.get (session_key user_id))
    refuse (not (eqb active token)) (auth invalid_refresh_token)
    user ← map_err (no_user_or (auth invalid_refresh_token)) (users.get_by_id user_id)
    start_session user

  pub logout : String → Exec W (Unit {0})
  unfolding mark
  logout raw = do
    let user_id = trim_space raw
    refuse (eqb user_id "") (other "auth: user id is required")
    invalidate_session user_id
    mark user_id status_offline

  pub validate_access_token : String → Exec W String
  validate_access_token raw = do
    let token = trim_space raw
    refuse (eqb token "") (auth invalid_access_token)
    user_id ←
        map_err (λ e. if is_cache_miss e then auth invalid_access_token else e)
          (cache.get (access_key token))
    cache.set (access_key token) user_id access_ttl
    cache.set (access_session_key user_id) token access_ttl
    pure user_id
