-- ===== src/Users/Outcomes.antt =====
-- How the user service reports what it does not find (internal/domain/users/service_impl.go).
use chatter_stack.Base.{String, ◌≢◌, arith}
use chatter_stack.Errors.{no_rows}
use chatter_stack.Exec.{err}
use chatter_stack.Users.{Service, get_by_id, get_by_email}

-- A look-up never fails with the error of the driver for a missing row.
pub look_ups_hide_no_rows :
    {W : Type 0} (s : Service W) (id email : String) (w : W)
    → ((get_by_id s id w).0 ≢ err no_rows) × ((get_by_email s email w).0 ≢ err no_rows)
unfolding get_by_id get_by_email
look_ups_hide_no_rows s id email w = (λ h. ground arith, λ h. ground arith)
