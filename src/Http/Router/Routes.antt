-- ===== src/Http/Router/Routes.antt =====
-- Which method and which path lead to a route: what `RegisterRoutes` in internal/delivery/http/router.go
-- and the methods of that name of the handlers give to gin. A name that starts with a colon stands
-- for one part of the path that is not empty, any other part for itself.
pub mod Apart
pub mod Open
pub mod Tests
use Prim.Native.Char.{code}
use Prim.Native.String.{◌∷◌ as char, [] as end}
use chatter_stack.Base.{
  if◌then◌else◌, ℕ, zero, suc, String, cat, Bool, true, false, not, ◌&&◌, ◌==◌, Option, none, some,
  List, [], ◌∷◌, ◌++◌, eqb, split_on,
}
use chatter_stack.Http.Router.{
  Call, health, register, login, refresh, logout, get_by_email, get_profile, update_status,
  search_rooms, create_room, ensure_direct_room, add_member, remove_member, list_members,
  delete_room, list_messages, send_message, mark_delivered, mark_read, edit_message, remove_message,
  search_messages,
}

record Route : Type 0 where
  method : String
  path : String

abbrev on : String → String → Route
on m p = record { method = m; path = p }

auth_routes : String → List Route
auth_routes group =
    on "POST" (cat group "/register")
    ∷ on "POST" (cat group "/login")
    ∷ on "POST" (cat group "/refresh")
    ∷ on "POST" (cat group "/logout")
    ∷ []

user_routes : String → List Route
user_routes group =
    on "GET" group ∷ on "GET" (cat group "/:userID") ∷ on "PATCH" (cat group "/:userID/status") ∷ []

room_routes : String → List Route
room_routes group =
    on "GET" group
    ∷ on "POST" group
    ∷ on "POST" (cat group "/direct")
    ∷ on "POST" (cat group "/:roomID/members")
    ∷ on "DELETE" (cat group "/:roomID/members/:userID")
    ∷ on "GET" (cat group "/:roomID/members")
    ∷ on "DELETE" (cat group "/:roomID")
    ∷ []

message_routes : String → List Route
message_routes group =
    on "GET" (cat group "/:roomID/messages")
    ∷ on "POST" (cat group "/:roomID/messages")
    ∷ on "POST" (cat group "/:roomID/messages/:messageID/deliver")
    ∷ on "POST" (cat group "/:roomID/messages/:messageID/read")
    ∷ on "PATCH" (cat group "/:roomID/messages/:messageID")
    ∷ on "DELETE" (cat group "/:roomID/messages/:messageID")
    ∷ []

search_routes : String → List Route
search_routes group = on "GET" (cat group "/search") ∷ []

-- In the order of registration.
routes : List Route
unfolding auth_routes user_routes room_routes message_routes search_routes
routes =
    let api : String = "/v1" in
    on "GET" "/health" ∷ auth_routes (cat api "/auth")
    ++ user_routes (cat api "/users")
    ++ room_routes (cat api "/rooms")
    ++ message_routes (cat api "/rooms")
    ++ search_routes (cat api "/messages")

-- The place among `routes` of the one whose handler answers the call.
pub place : Call → ℕ
place health = 0
place (register body) = 1
place (login body) = 2
place (refresh body) = 3
place (logout body) = 4
place get_by_email = 5
place get_profile = 6
place (update_status body) = 7
place search_rooms = 8
place (create_room body) = 9
place (ensure_direct_room body) = 10
place (add_member body) = 11
place remove_member = 12
place list_members = 13
place delete_room = 14
place list_messages = 15
place (send_message body) = 16
place mark_delivered = 17
place mark_read = 18
place (edit_message body) = 19
place remove_message = 20
place search_messages = 21

is_name : String → Bool
is_name end = false
is_name (char c s) = code c == 58

-- A part of a pattern and a part of a path.
fits_part : String → String → Bool
unfolding is_name
fits_part p s = if is_name p then not (eqb s "") else eqb p s

fits : List String → List String → Bool
unfolding fits_part
fits [] [] = true
fits (p ∷ pattern) (s ∷ path) = fits_part p s && fits pattern path
fits _ _ = false

leads_to : Route → String → String → Bool
unfolding fits
leads_to r method path = eqb r.method method && fits (split_on 47 r.path) (split_on 47 path)

found : Option Route → String → String → Bool
unfolding leads_to
found none method path = false
found (some r) method path = leads_to r method path

abbrev get_elem? {ℓ} : {A : Type ℓ} → List A → ℕ → Option A
get_elem? [] i = none
get_elem? (x ∷ xs) zero = some x
get_elem? (x ∷ xs) (suc i) = get_elem? xs i

-- Whether a method and a path lead to the route of a call.
pub reaches : Call → String → String → Bool
unfolding found routes place
reaches call method path = found (get_elem? routes (place call)) method path
