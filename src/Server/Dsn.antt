-- ===== src/Server/Dsn.antt =====
-- maskDSN in cmd/server/main.go: what is logged of the address of the database.
pub mod Hiding
use chatter_stack.Base.{String, Option, none, some}

-- url.Userinfo
pub record Userinfo : Type 0 where
  pub username : String
  pub password : Option String

-- url.URL: the field `User`, and the others.
pub record Url (R : Type 0) : Type 0 where
  pub user : Option Userinfo
  pub rest : R

-- url.Parse, the first value of "sslmode" in the query, and the text of a URL.
pub record Urls (R : Type 0) : Type 0 where
  pub parse : String → Option (Url R)
  pub sslmode : R → String
  pub text : Url R → String

mask_password : Option String → Option String
mask_password none = none
mask_password (some p) = some "****"

mask_user : Option Userinfo → Option Userinfo
unfolding mask_password
mask_user none = none
mask_user (some u) = some (record u { password = mask_password u.password })

module _ {R : Type 0} (urls : Urls R) where
  masked : String → Option (Url R) → String × String
  unfolding mask_user
  masked dsn none = (dsn, "")
  masked dsn (some u) = (urls.text (record u { user = mask_user u.user }), urls.sslmode u.rest)

  -- The masked text, and the sslmode.
  unfoldable pub mask_dsn : String → String × String
  unfolding masked
  mask_dsn dsn = masked dsn (urls.parse dsn)
