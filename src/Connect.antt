-- ===== src/Connect.antt =====
-- The handler of /ws in cmd/server/main.go: who is let in over a websocket, and into which rooms. The
-- upgrade of the connection is a parameter.
pub mod Authorized
pub mod Tests
use chatter_stack.Base.{ℕ, String, Bool, List, [], ◌∷◌, eqb, trim_space, if◌then◌else◌}
use chatter_stack.Exec.{Result, ok, err, Exec}
use chatter_stack.Models.{User}
use chatter_stack.Auth
use chatter_stack.Users
use chatter_stack.Rooms
use chatter_stack.Usecase.AuthUseCase
use chatter_stack.Usecase.UserUseCase
use chatter_stack.Usecase.RoomUseCase
use chatter_stack.Client.{display_name, filter_authorized_rooms}
use chatter_stack.Middleware.Bearer

-- The request is answered with an error; the upgrade has failed; the profile of the user could not be
-- read after the upgrade; or a client of the user is registered, with its rooms and its name.
pub data Outcome : Type 0 where
  refused : ℕ → String → Outcome
  not_upgraded : Outcome
  without_profile : Outcome
  connected : String → List String → String → Outcome

-- ExtractBearerToken of internal/delivery/websocket/auth_helpers.go, which has the text of the function of
-- that name in pkg/middleware/auth.go.
abbrev pub extract_bearer_token : String → String
extract_bearer_token header = Bearer.extract_bearer_token header

-- The token of the header, else that of the query.
unfoldable pub request_token : String → String → String
request_token header query =
    let token = extract_bearer_token header in if eqb token "" then trim_space query else token

module _ {W : Type 0} (auth : Auth.Service W) (users : Users.Service W) (rooms : Rooms.Service W)
    (upgrade : Exec W (Unit {0})) where
  with_profile : String → List String → Result User → Outcome
  with_profile id allowed (ok profile) = connected id allowed (display_name id profile.username)
  with_profile id allowed (err e) = without_profile

  upgraded : String → List String → Result (Unit {0}) → W → Outcome × W
  unfolding with_profile
  upgraded id allowed (err e) w = (not_upgraded, w)
  upgraded id allowed (ok u) w = (
    with_profile id allowed (UserUseCase.get_profile users id w).0,
    (UserUseCase.get_profile users id w).1,
  )

  into_rooms : String → List String → W → Outcome × W
  unfolding upgraded
  into_rooms id [] w = (refused 403 "no authorized rooms", w)
  into_rooms id (r ∷ allowed) w = upgraded id (r ∷ allowed) (upgrade w).0 (upgrade w).1

  choose_rooms : String → List String → W → Outcome × W
  unfolding into_rooms
  choose_rooms id [] w = (refused 400 "room_id is required", w)
  choose_rooms id (r ∷ raw) w =
      let (allowed, w1) = filter_authorized_rooms (RoomUseCase.list_members rooms) id (r ∷ raw) w in
      into_rooms id allowed w1

  validated : Result String → List String → W → Outcome × W
  unfolding choose_rooms
  validated (err e) raw w = (refused 401 "invalid access token", w)
  validated (ok id) raw w = choose_rooms id raw w

  -- `raw` are the values of "room_id" in the query.
  unfoldable pub connect : String → String → List String → W → Outcome × W
  unfolding validated request_token
  connect header query raw w =
      let token = request_token header query in
      if eqb token ""
      then (refused 401 "missing bearer token", w)
      else validated (AuthUseCase.validate_access_token auth token w).0 raw
          (AuthUseCase.validate_access_token auth token w).1
