-- ===== src/Http/AuthHandler.antt =====
-- internal/delivery/http/auth_handler.go and user_handler.go, over the use cases of authentication
-- and of users.
use chatter_stack.Base.{String, Option, eqb, if◌then◌else◌}
use chatter_stack.Auth
use chatter_stack.Auth.{RegisterInput, TokenPair}
use chatter_stack.Users
use chatter_stack.Usecase.AuthUseCase
use chatter_stack.Usecase.UserUseCase
use chatter_stack.Http.Failures.{map_auth_error, map_user_error}
use chatter_stack.Http.Payloads.{TokenPayload, to_user_payload}
use chatter_stack.Http.Request.{
  user, tokens, Request, Handler, reject, answer_with, shown, no_content, for_body,
}

pub record LoginBody : Type 0 where
  pub email : String
  pub password : String

abbrev pub to_token_payload : TokenPair → TokenPayload
to_token_payload t = record { access_token = t.access_token; refresh_token = t.refresh_token }

module _ {W : Type 0} (s : Auth.Service W) where
  unfoldable pub register : Option RegisterInput → Handler W
  register body = for_body body λ req.
      answer_with map_auth_error (shown 201 λ u. user (to_user_payload u))
        (AuthUseCase.register s req)

  unfoldable pub login : Option LoginBody → Handler W
  login body = for_body body λ req.
      answer_with map_auth_error (shown 200 λ t. tokens (to_token_payload t))
        (AuthUseCase.login s req.email req.password)

  unfoldable pub refresh : Option String → Handler W
  refresh body = for_body body λ refresh_token.
      answer_with map_auth_error (shown 200 λ t. tokens (to_token_payload t))
        (AuthUseCase.refresh s refresh_token)

  unfoldable pub logout : Option String → Handler W
  logout body = for_body body λ user_id w.
      if eqb user_id ""
      then reject 400 "user_id is required" w
      else answer_with map_auth_error no_content (AuthUseCase.logout s user_id) w

module _ {W : Type 0} (s : Users.Service W) where
  unfoldable pub get_profile : Request → Handler W
  get_profile r =
      answer_with map_user_error (shown 200 λ u. user (to_user_payload u))
        (UserUseCase.get_profile s (r.param "userID"))

  unfoldable pub get_by_email : Request → Handler W
  get_by_email r w =
      if eqb (r.query "email") ""
      then reject 400 "email query parameter is required" w
      else answer_with map_user_error (shown 200 λ u. user (to_user_payload u))
          (UserUseCase.get_by_email s (r.query "email")) w

  unfoldable pub update_status : Request → Option String → Handler W
  update_status r body = for_body body λ status w.
      if eqb status ""
      then reject 400 "status is required" w
      else answer_with map_user_error no_content
          (UserUseCase.update_status s (r.param "userID") status) w
