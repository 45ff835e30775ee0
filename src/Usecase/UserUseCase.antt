-- ===== src/Usecase/UserUseCase.antt =====
-- internal/usecase/user_usecase.go.
use chatter_stack.Base.{String}
use chatter_stack.Exec.{Exec}
use chatter_stack.Models.{User}
use chatter_stack.Users
use chatter_stack.Users.{Service}

abbrev pub get_profile : {W : Type 0} → Service W → String → Exec W User
get_profile uc = Users.get_by_id uc

abbrev pub get_by_email : {W : Type 0} → Service W → String → Exec W User
get_by_email uc = Users.get_by_email uc

abbrev pub update_status : {W : Type 0} → Service W → String → String → Exec W (Unit {0})
update_status uc = Users.update_status uc
