-- ===== src/Users/Tests.antt =====
-- The user service at a repository that has nobody.
use chatter_stack.Base.{◌≢◌}
use chatter_stack.Errors.{no_rows}
use chatter_stack.Exec.{ok, err}
use chatter_stack.Users.{Service, get_by_id, get_by_email}
use chatter_stack.Users.Outcomes.{look_ups_hide_no_rows}

abbrev nobody : Service (Unit {0})
nobody = record {
  repo = record {
    get_by_id = λ id w. (err no_rows, w);
    get_by_email = λ email w. (err no_rows, w);
    update_status = λ id status now w. (ok tt, w);
  };
  now = λ w. 0;
}

missing_user_hidden :
    ((get_by_id nobody "u1" tt).0 ≢ err no_rows) × ((get_by_email nobody "a@x" tt).0 ≢ err no_rows)
missing_user_hidden = look_ups_hide_no_rows nobody "u1" "a@x" tt
