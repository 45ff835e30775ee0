-- ===== src/Auth/LifeTests.antt =====
-- The life of one session, with a cache that is a dictionary.
use chatter_stack.Base.{◌≡◌, refl, [], ◌∷◌}
use chatter_stack.Base.Dict
use chatter_stack.Errors.{auth, invalid_refresh_token, invalid_access_token}
use chatter_stack.Exec.{ok, err}
use chatter_stack.Auth.{TokenPair, login, refresh, logout, validate_access_token}
use chatter_stack.Auth.Cache.{Keeps-refl}
use chatter_stack.Auth.Reliable.{IsReliable}
use chatter_stack.Auth.Session.{IsQuiet, IsWorking, IsSession, logout_revokes}
use chatter_stack.Auth.Progress.{login-IsSession, access_is_accepted, refresh-IsSession}
use chatter_stack.Auth.Tests.{view, dictionary, service, ann, start, signed_in, first, auth_code}

pub dictionary-IsReliable : IsReliable view dictionary
dictionary-IsReliable = record {
  get = λ k w. refl;
  get_view = λ k w j. refl;
  delete = λ k w. refl;
  delete_view = λ k w j. Dict.get-remove k j w.entries;
  set = λ k v ttl w. refl;
  set_view = λ k v ttl w j. Dict.get-put k j v w.entries;
}

pub service-IsQuiet : IsQuiet view service
service-IsQuiet = record { update = λ id status now w k. refl; random = λ w k. refl }

pub service-IsWorking : IsWorking service
service-IsWorking = record { update = λ id status now w. refl; random = λ w. (w.made ∷ [], refl) }

pub signed_in-IsSession : IsSession view "u1" first signed_in
unfolding auth_code
signed_in-IsSession = record {
  active = refl;
  owner = refl;
  access = refl;
  access_active = refl;
  access_named = refl;
  refresh_named = refl;
}

login-IsSession_example :
    (pair : TokenPair) × ((login service " ann@x" "password1" start).0 ≡ ok pair)
    × IsSession view "u1" pair (login service " ann@x" "password1" start).1
unfolding auth_code
login-IsSession_example =
    login-IsSession service dictionary-IsReliable service-IsQuiet service-IsWorking " ann@x"
      "password1" ann start refl refl refl refl

access_is_accepted_at_work :
    ((validate_access_token service " access_AA" signed_in).0 ≡ ok "u1")
    × IsSession view "u1" first (validate_access_token service " access_AA" signed_in).1
unfolding auth_code
access_is_accepted_at_work =
    access_is_accepted service dictionary-IsReliable " access_AA" "u1" first signed_in refl
      signed_in-IsSession

refresh-IsSession_example :
    (pair : TokenPair) × ((refresh service "refresh_AQ" signed_in).0 ≡ ok pair)
    × IsSession view "u1" pair (refresh service "refresh_AQ" signed_in).1
unfolding auth_code
refresh-IsSession_example =
    refresh-IsSession service dictionary-IsReliable service-IsQuiet service-IsWorking "refresh_AQ"
      "u1" first ann signed_in refl signed_in-IsSession refl

logout_revokes_example :
    ((refresh service "refresh_AQ" (logout service " u1" signed_in).1).0
      ≡ err (auth invalid_refresh_token))
    × ((validate_access_token service "access_AA" (logout service " u1" signed_in).1).0
        ≡ err (auth invalid_access_token))
unfolding auth_code
logout_revokes_example =
    logout_revokes service dictionary-IsReliable service-IsQuiet " u1" "refresh_AQ" "access_AA"
      signed_in (logout service " u1" signed_in).1 refl refl refl
      (Keeps-refl (logout service " u1" signed_in).1)
