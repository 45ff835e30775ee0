-- ===== src/Auth/Tests.antt =====
-- The authentication service at a concrete world: users, and a cache that is a dictionary.
use chatter_stack.Base.{
  ℕ, ◌+◌, String, cat, ◌≡◌, ◌≢◌, refl, false, Option, none, some, [], ◌∷◌, arith, pos, eqb, eq_iff,
  trim_space, is_space, if◌then◌else◌, ne_of_eqb,
}
use chatter_stack.Base.Dict
use chatter_stack.Errors.{auth, no_rows, invalid_credentials, email_already_used, other}
use chatter_stack.Exec.{Result, ok, err}
use chatter_stack.Models.{User}
use chatter_stack.Utils.{
  Crypto, hash_password, compare_hash_and_password, generate_opaque_token, encode_base64,
}
use chatter_stack.Auth.{
  Service, UserRepository, TokenCache, TokenPair, RegisterInput, register, login, refresh, logout,
  start_session, validate_access_token, normalize_email, new_user, invalidate_session, issue_tokens,
  store_tokens,
}
use chatter_stack.Auth.Keys.{session_key, access_key, access_session_key, refresh_key}
use chatter_stack.Auth.Cache.{View, IsCache, IsWorld, Keeps-refl}
use chatter_stack.Auth.Reliable.{found}
use chatter_stack.Auth.Rotation.{refresh_active, refresh_rotates}
use chatter_stack.Auth.Issue.{IsIssued}
use chatter_stack.Auth.Login.{login_checks, login_tells_nothing, validated_is_stored}
use chatter_stack.Auth.Registration.{IsFilled, register_stores, taken_email_refused}
use chatter_stack.Middleware.Bearer.{authenticate, request_token}
use chatter_stack.Middleware.Access.{passed_is_stored}

pub record World : Type 0 where
  pub entries : Dict.Dict String
  pub made : ℕ

found-ok : (o : Option String) (v : String) → found o ≡ ok v → o ≡ some v
found-ok none v h = cc
found-ok (some u) v h = ground arith

abbrev pub dictionary : TokenCache World
dictionary = record {
  get = λ k w. (found (Dict.get k w.entries), w);
  set = λ k v ttl w. (ok tt, record w { entries = Dict.put k v w.entries });
  delete = λ k w. (ok tt, record w { entries = Dict.remove k w.entries });
}

abbrev pub view : View World
view w k = Dict.get k w.entries

dictionary-IsCache : IsCache view dictionary
dictionary-IsCache = record {
  get_sound = λ k v w h. found-ok (Dict.get k w.entries) v h;
  get_keeps = λ k w. Keeps-refl w;
  delete_keeps = λ k w. record { at = λ j v h. ground (arith, Dict.get-remove k j w.entries) };
  set_only = λ k v ttl w j u h. ground (arith, Dict.get-put k j v w.entries, eq_iff k j);
  set_ok = λ k v ttl w u s h. ground (arith, Dict.get-put k k v w.entries, eq_iff k k);
}

-- A hash is the password with a mark, a random buffer the number of buffers made before it.
abbrev pub crypto : Crypto World
crypto = record {
  generate = λ p w. (ok (cat "#" p), w);
  compare = λ hash p. if eqb hash (cat "#" p) then ok tt else err (other "mismatch");
  random = λ w. (ok (w.made ∷ []), record w { made = w.made + 1 });
}

abbrev pub ann : User
ann = record {
  id = "u1";
  username = "ann";
  email = "ann@x";
  password_hash = "#password1";
  status = "offline";
  last_seen_at = 0;
  created_at = 0;
}

abbrev pub by_email : String → Result User
by_email email = if eqb email "ann@x" then ok ann else err no_rows

abbrev pub users : UserRepository World
users = record {
  create = λ u w. (ok (record u { id = "u2" }), w);
  get_by_email = λ email w. (by_email email, w);
  get_by_id = λ id w. (ok (record ann { id = id }), w);
  update_status = λ id status now w. (ok tt, w);
}

abbrev pub service : Service World
service = record {
  users = users;
  cache = dictionary;
  access_ttl = pos 1;
  refresh_ttl = pos 2;
  crypto = crypto;
  now = λ w. 0;
  to_lower = λ s. s;
}

pub service-IsWorld : IsWorld view service
unfolding generate_opaque_token
service-IsWorld = record {
  cached = dictionary-IsCache;
  by_id_keeps = λ id w. Keeps-refl w;
  by_email_keeps = λ email w. Keeps-refl w;
  update_keeps = λ id status now w. Keeps-refl w;
  token_keeps = λ prefix w. record { at = λ k v h. h };
  by_id = λ id w r h. ground arith;
}

unfoldable pub auth_code : Unit {0}
unfolding register login refresh logout validate_access_token normalize_email invalidate_session
    issue_tokens store_tokens start_session hash_password compare_hash_and_password
    generate_opaque_token encode_base64 session_key access_key access_session_key refresh_key
    trim_space is_space Dict.get Dict.put Dict.remove
auth_code = tt

abbrev pub start : World
start = record { entries = []; made = 0 }

abbrev pub signed_in : World
signed_in = (login service " ann@x" "password1" start).1

abbrev pub first : TokenPair
first = record { access_token = "access_AA"; refresh_token = "refresh_AQ" }

abbrev pub second : TokenPair
second = record { access_token = "access_Ag"; refresh_token = "refresh_Aw" }

login-first : login service " ann@x" "password1" start ≡ (ok first, signed_in)
unfolding auth_code
login-first = refl

abbrev refreshed : World
refreshed = (refresh service "refresh_AQ " signed_in).1

refresh-second : refresh service "refresh_AQ " signed_in ≡ (ok second, refreshed)
unfolding auth_code
refresh-second = refl

refresh_active_example :
    (id : String) × (view signed_in (refresh_key "refresh_AQ") ≡ some id)
    × (view signed_in (session_key id) ≡ some "refresh_AQ")
    × IsIssued view id "refresh_Aw" signed_in refreshed
unfolding is_space trim_space
refresh_active_example =
    refresh_active service service-IsWorld "refresh_AQ " signed_in refreshed second refresh-second

refresh_rotates_example : (refresh service "refresh_AQ " refreshed).0 ≢ ok first
unfolding is_space trim_space
refresh_rotates_example =
    refresh_rotates service service-IsWorld "refresh_AQ " signed_in refreshed refreshed second first
      refresh-second (ne_of_eqb "refresh_Aw" "refresh_AQ" refl) (Keeps-refl refreshed)

login_checks_example :
    (eqb (normalize_email service " ann@x") "" ≡ false)
    × (eqb "password1" "" ≡ false)
    × (user : User) × ((by_email (normalize_email service " ann@x")) ≡ ok user)
    × (compare_hash_and_password crypto user.password_hash "password1" ≡ ok tt)
    × (start_session service user start ≡ (ok first, signed_in))
login_checks_example = login_checks service " ann@x" "password1" start signed_in first login-first

login_tells_nothing_at_work :
    ((login service "ann@x" "password2" start).0 ≡ err (auth invalid_credentials))
    × ((login service "bob@x" "password2" start).0 ≡ err (auth invalid_credentials))
unfolding auth_code
login_tells_nothing_at_work =
    login_tells_nothing service "ann@x" "bob@x" "password2" "password2" ann (other "mismatch") start
      start refl refl refl refl refl refl refl

validated_is_stored_at_work : view signed_in (access_key "access_AA") ≡ some "u1"
unfolding auth_code
validated_is_stored_at_work =
    validated_is_stored service service-IsWorld "access_AA" "u1" signed_in
      (validate_access_token service "access_AA" signed_in).1 refl

abbrev input : RegisterInput
input = record { username = " bob "; email = " bob@x "; password = "password2" }

abbrev bob : User
bob = record (new_user service input "") { id = "u2" }

register_stores_at_work :
    IsFilled input
    × (by_email (normalize_email service " bob@x ") ≡ err no_rows)
    × (hash : String) × (stored : User) × (w1 : World) × (hash_password crypto "password2" start
        ≡ (ok hash, w1))
    × (users.create (new_user service input hash) w1 ≡ (ok stored, start))
    × (bob ≡ record stored { password_hash = "" })
unfolding auth_code
register_stores_at_work = register_stores service input bob start start refl

taken_email_at_work :
    register service (record input { email = "ann@x" }) start
    ≡ (err (auth email_already_used), start)
unfolding auth_code
taken_email_at_work =
    taken_email_refused service (record input { email = "ann@x" }) ann start refl refl refl refl

passed_is_stored_at_work :
    view signed_in (access_key (trim_space (request_token "bearer access_AA" ""))) ≡ some "u1"
unfolding auth_code request_token authenticate
passed_is_stored_at_work =
    passed_is_stored service service-IsWorld "bearer access_AA" "" "u1" signed_in
      (authenticate (some (validate_access_token service)) "bearer access_AA" "" signed_in).1 refl
