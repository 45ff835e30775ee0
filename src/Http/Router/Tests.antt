-- ===== src/Http/Router/Tests.antt =====
-- Requests to the routes, in front of services whose session is that of one user.
use chatter_stack.Base.{
  ℕ, ◌≤◌, ◌<◌, pos, String, ◌≡◌, refl, none, some, [], ◌∷◌, ◌⊎◌, if◌then◌else◌, eqb, trim_space,
  is_space, atoi,
}
use chatter_stack.Errors.{auth, no_rows, invalid_refresh_token, invalid_access_token}
use chatter_stack.Exec.{ok, err}
use chatter_stack.Models.{Message}
use chatter_stack.Auth
use chatter_stack.Auth.Keys.{access_key}
use chatter_stack.Auth.Cache.{Keeps-refl}
use chatter_stack.Auth.Session.{IsSession}
use chatter_stack.Auth.Tests.{
  World, view, service, service-IsWorld, users, start, signed_in, first, auth_code,
}
use chatter_stack.Auth.LifeTests.{
  dictionary-IsReliable, service-IsQuiet, service-IsWorking, signed_in-IsSession,
}
use chatter_stack.Rooms
use chatter_stack.Messages
use chatter_stack.Messages.{deleted, changed, publish_room_event}
use chatter_stack.Middleware.Bearer.{authenticate, request_token}
use chatter_stack.Http.Request.{error, empty, Request, current_user_id, parse_pagination}
use chatter_stack.Http.Request.Bounds.{parse_pagination_bounds}
use chatter_stack.Http.MessageHandler
use chatter_stack.Http.MessageHandler.Elsewhere.{not_found, removed_elsewhere}
use chatter_stack.Http.Router.{Services, Call, is_protected, handle, serve}
use chatter_stack.Http.Router.Answering.{IsServed}
use chatter_stack.Http.Router.Guarded.{protected_needs_token, no_token_no_effect, token_is_served}
use chatter_stack.Http.Router.Outsiders.{logout_needs_no_token}
use chatter_stack.Http.Router.Served.{served}

abbrev hello : Message
hello = record {
  id = "m1";
  room_id = "r1";
  sender_id = "u1";
  content = "hello";
  attachments = [];
  status = "sent";
  created_at = 1;
  updated_at = 1;
}

abbrev messages : Messages.Service World
messages = record {
  repo = record {
    create = λ m w. (ok m, w);
    list_by_room = λ room limit offset w. (ok (hello ∷ []), w);
    list_around = λ room id before after w. (ok (hello ∷ []), w);
    update_status = λ id status w. (ok tt, w);
    upsert_receipt = λ receipt w. (ok tt, w);
    search = λ user room query limit w. (ok [], w);
    get_by_id = λ id w. (ok hello, w);
    update_content = λ id content w. (ok (record hello { content = content }), w);
    delete = λ id w. (ok tt, w);
  };
  pub_sub = none;
  marshal = λ e. ok "";
  now = λ w. 0;
}

abbrev rooms : Rooms.Service World
rooms = record {
  repo = record {
    create = λ r ms w. (ok (r, ms), w);
    add_member = λ m w. (ok tt, w);
    remove_member = λ r u w. (ok tt, w);
    list_members = λ r w. (ok [], w);
    search = λ u q limit w. (ok [], w);
    find_direct_room = λ a b w. (err no_rows, w);
    get_by_id = λ id w. (err no_rows, w);
    delete = λ id w. (ok tt, w);
  };
  pub_sub = none;
  marshal = λ r. ok "";
  iterate = λ ms. ms;
}

abbrev services : Services World
services = record {
  auth = service;
  users = record {
    repo = record {
      get_by_id = users.get_by_id;
      get_by_email = users.get_by_email;
      update_status = users.update_status;
    };
    now = λ w. 0;
  };
  rooms = rooms;
  messages = messages;
}

params : String → String
params name = if eqb name "roomID" then "r2" else if eqb name "messageID" then "m1" else ""

queries : String → String
queries name = if eqb name "page" then "3" else ""

abbrev request : Request
request = record { param = params; query = queries; user_id = some "u1" }

router_code : Unit {0}
unfolding auth_code serve handle is_protected authenticate request_token params queries
router_code = tt

protected_needs_token_at_work :
    ((serve services Call.mark_read "Bearer access_AA" "" request signed_in).0.status ≡ 401)
    ⊎ ((id : String) × (view signed_in
            (access_key (trim_space (request_token "Bearer access_AA" "")))
          ≡ some id)
        × (serve services Call.mark_read "Bearer access_AA" "" request signed_in
            ≡ handle services Call.mark_read
                (record request { user_id = some id })
                (Auth.validate_access_token service
                  (request_token "Bearer access_AA" "")
                  signed_in).1))
unfolding is_protected
protected_needs_token_at_work =
    protected_needs_token services service-IsWorld Call.mark_read "Bearer access_AA" "" request
      signed_in refl

no_token_no_effect_at_work :
    serve services Call.delete_room "Basic x" " " request signed_in
    ≡ (record { status = 401; body = error "missing bearer token" }, signed_in)
unfolding router_code
no_token_no_effect_at_work =
    no_token_no_effect services Call.delete_room "Basic x" " " request signed_in refl refl

token_is_served_example :
    (w1 : World) × IsSession view "u1" first w1
    × (serve services Call.list_members "" "access_AA" request signed_in
        ≡ handle services Call.list_members (record request { user_id = some "u1" }) w1)
unfolding router_code
token_is_served_example =
    token_is_served services dictionary-IsReliable Call.list_members "" "access_AA" "u1" first
      request signed_in refl refl signed_in-IsSession

IsServed-at_work : IsServed (serve services (Call.register none) "" "" request start).0
IsServed-at_work = served services (Call.register none) "" "" request start

logout_needs_no_token_example :
    ((serve services (Call.logout (some "u1")) "" "" request signed_in).0
      ≡ record { status = 204; body = empty })
    × ((Auth.refresh service "refresh_AQ"
          (serve services (Call.logout (some "u1")) "" "" request signed_in).1).0
        ≡ err (auth invalid_refresh_token))
    × ((Auth.validate_access_token service "access_AA"
          (serve services (Call.logout (some "u1")) "" "" request signed_in).1).0
        ≡ err (auth invalid_access_token))
unfolding auth_code
logout_needs_no_token_example =
    logout_needs_no_token services dictionary-IsReliable service-IsQuiet service-IsWorking "u1" ""
      "" "refresh_AQ" "access_AA" first request signed_in
      (serve services (Call.logout (some "u1")) "" "" request signed_in).1 refl signed_in-IsSession
      refl refl (Keeps-refl (serve services (Call.logout (some "u1")) "" "" request signed_in).1)

removed_elsewhere_example :
    (MessageHandler.remove messages request start ≡ (not_found, start))
    × (w0 : World) × (w1 : World) × (messages.repo.delete (trim_space (params "messageID")) w0
        ≡ (ok tt, w1))
    × (publish_room_event messages none "r1" (deleted "m1" "r1") w1 ≡ (ok tt, start))
unfolding router_code Messages.delete current_user_id trim_space is_space publish_room_event
removed_elsewhere_example = removed_elsewhere messages request "u1" hello start start refl refl refl

parse_pagination_bounds_at_work :
    (p : ℕ) × (l : ℕ) × (pos 3 ≡ pos p)
    × (pos 0 ≡ pos l)
    × (1 ≤ p)
    × (p < 9223372036854775808)
    × (l < 9223372036854775808)
unfolding router_code parse_pagination atoi
parse_pagination_bounds_at_work = parse_pagination_bounds request (pos 3) (pos 0) refl
