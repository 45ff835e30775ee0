-- ===== src/Users.antt =====
-- internal/domain/users/service_impl.go: the user service over its repository, a parameter.
pub mod Outcomes
pub mod Tests
use chatter_stack.Base.{ℕ, String, eqb, if◌then◌else◌}
use chatter_stack.Errors.{Error, user_not_found, other, is_no_rows}
use chatter_stack.Exec.{Exec, map_err, refuse, ◌>>=◌, ◌>>◌}
use chatter_stack.Models.{User}

pub record UserRepository (W : Type 0) : Type 0 where
  pub get_by_id : String → Exec W User
  pub get_by_email : String → Exec W User
  pub update_status : String → String → ℕ → Exec W (Unit {0})

-- The repository and the clock.
pub record Service (W : Type 0) : Type 0 where
  pub repo : UserRepository W
  pub now : W → ℕ

-- A look-up that finds nothing is reported as a missing user.
abbrev pub hide_missing : Error → Error
hide_missing e = if is_no_rows e then user_not_found else e

module _ {W : Type 0} (s : Service W) where
  open s use {repo}

  unfoldable pub get_by_id : String → Exec W User
  get_by_id id = map_err hide_missing (repo.get_by_id id)

  pub get_by_email : String → Exec W User
  get_by_email email = map_err hide_missing (repo.get_by_email email)

  stamp : String → String → Exec W (Unit {0})
  stamp id status w = repo.update_status id status (s.now w) w

  pub update_status : String → String → Exec W (Unit {0})
  unfolding stamp
  update_status id status = do
    refuse (eqb id "") (other "users: id cannot be empty")
    refuse (eqb status "") (other "users: status cannot be empty")
    stamp id status
