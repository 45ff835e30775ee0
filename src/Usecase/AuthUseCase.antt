-- ===== src/Usecase/AuthUseCase.antt =====
-- internal/usecase/auth_usecase.go.
use chatter_stack.Base.{String}
use chatter_stack.Exec.{Exec}
use chatter_stack.Models.{User}
use chatter_stack.Auth
use chatter_stack.Auth.{Service, RegisterInput, TokenPair}

abbrev pub register : {W : Type 0} → Service W → RegisterInput → Exec W User
register uc = Auth.register uc

abbrev pub login : {W : Type 0} → Service W → String → String → Exec W TokenPair
login uc = Auth.login uc

abbrev pub refresh : {W : Type 0} → Service W → String → Exec W TokenPair
refresh uc = Auth.refresh uc

abbrev pub logout : {W : Type 0} → Service W → String → Exec W (Unit {0})
logout uc = Auth.logout uc

abbrev pub validate_access_token : {W : Type 0} → Service W → String → Exec W String
validate_access_token uc = Auth.validate_access_token uc
