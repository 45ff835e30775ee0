-- ===== src/Usecase/RoomUseCase.antt =====
-- internal/usecase/room_usecase.go.
use chatter_stack.Base.{String, Bool, List, ℤ}
use chatter_stack.Exec.{Exec}
use chatter_stack.Models.{Room, RoomMember}
use chatter_stack.Rooms
use chatter_stack.Rooms.{Service, CreateRoomInput}

abbrev pub create : {W : Type 0} → Service W → CreateRoomInput → Exec W Room
create uc = Rooms.create uc

abbrev pub add_member : {W : Type 0} → Service W → String → String → String → Exec W (Unit {0})
add_member uc = Rooms.add_member uc

abbrev pub remove_member : {W : Type 0} → Service W → String → String → Exec W (Unit {0})
remove_member uc = Rooms.remove_member uc

abbrev pub list_members : {W : Type 0} → Service W → String → Exec W (List RoomMember)
list_members uc = Rooms.list_members uc

abbrev pub search : {W : Type 0} → Service W → String → String → ℤ → Exec W (List Room)
search uc = Rooms.search uc

abbrev pub ensure_direct_room : {W : Type 0} → Service W → String → String → Exec W (Room × Bool)
ensure_direct_room uc = Rooms.ensure_direct_room uc

abbrev pub delete : {W : Type 0} → Service W → String → String → Exec W (Unit {0})
delete uc = Rooms.delete uc
