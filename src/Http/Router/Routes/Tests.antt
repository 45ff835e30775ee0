-- ===== src/Http/Router/Routes/Tests.antt =====
-- Methods and paths of requests.
use chatter_stack.Base.{String, true, false, ◌≡◌, refl, none, some, not, split_on}
use chatter_stack.Http.Router.{
  logout, edit_message, remove_message, create_room, ensure_direct_room, search_rooms, is_protected,
}
use chatter_stack.Http.Router.Routes.{place, fits, reaches}
use chatter_stack.Http.Router.Routes.Apart.{one_route}
use chatter_stack.Http.Router.Routes.Open.{is_open, open_paths}

abbrev room_path : String
room_path = "/v1/rooms/r1/messages/m1"

finds_routes :
    (reaches remove_message "DELETE" room_path ≡ true)
    × (reaches remove_message "PATCH" room_path ≡ false)
    × (reaches (create_room none) "POST" "/v1/rooms" ≡ true)
    × (reaches (ensure_direct_room none) "POST" "/v1/rooms/direct" ≡ true)
    × (reaches remove_message "DELETE" "/v1/rooms//messages/m1" ≡ false)
    × (reaches search_rooms "GET" "/v1/rooms/" ≡ false)
unfolding reaches split_on fits
finds_routes = (refl, refl, refl, refl, refl, refl)

one_route_example : place (edit_message none) ≡ place (edit_message (some "x"))
unfolding reaches split_on fits
one_route_example =
    one_route (edit_message none) (edit_message (some "x")) "PATCH" room_path refl refl

open_paths_example : is_open (split_on 47 room_path) ≡ not (is_protected remove_message)
unfolding reaches split_on fits
open_paths_example = open_paths remove_message "DELETE" room_path refl

is_open-logout : is_open (split_on 47 "/v1/auth/logout") ≡ not (is_protected (logout none))
unfolding reaches split_on fits
is_open-logout = open_paths (logout none) "POST" "/v1/auth/logout" refl
