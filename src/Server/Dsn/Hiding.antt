-- ===== src/Server/Dsn/Hiding.antt =====
-- What the log of cmd/server/main.go tells of the password of the database.
use chatter_stack.Base.{
  String, ◌≡◌, refl, sym, ap, ◌∙◌, Bool, true, false, Option, none, some, arith,
}
use chatter_stack.Server.Dsn.{Userinfo, Url, Urls, mask_password, mask_user, mask_dsn}

-- Whether there is a password.
abbrev pub is_set : Option String → Bool
is_set none = false
is_set (some p) = true

-- The user without the text of the password.
abbrev pub without_password : Option Userinfo → Option (String × Bool)
without_password none = none
without_password (some u) = some (u.username, is_set u.password)

mask_password-eq : (p q : Option String) → is_set p ≡ is_set q → mask_password p ≡ mask_password q
unfolding mask_password
mask_password-eq none none h = refl
mask_password-eq none (some q) h = cc
mask_password-eq (some p) none h = cc
mask_password-eq (some p) (some q) h = refl

mask_user-eq :
    (u v : Option Userinfo) → without_password u ≡ without_password v → mask_user u ≡ mask_user v
unfolding mask_user
mask_user-eq none none h = refl
mask_user-eq none (some v) h = cc
mask_user-eq (some u) none h = cc
mask_user-eq (some u) (some v) h =
    let name : u.username ≡ v.username = ground arith in
    let set : is_set u.password ≡ is_set v.password = ground arith in
    cc (name, mask_password-eq u.password v.password set)

module _ {R : Type 0} (urls : Urls R) where
  -- What is logged of the address of the database does not depend on the text of the password:
  -- for two addresses that parse as URLs with the same user name, both with a password or both
  -- without, and the same other parts, `maskDSN` gives the same.
  pub mask_dsn_hides :
      (d e : String) (u v : Url R)
      → urls.parse d ≡ some u
      → urls.parse e ≡ some v
      → without_password u.user ≡ without_password v.user
      → u.rest ≡ v.rest
      → mask_dsn urls d ≡ mask_dsn urls e
  unfolding mask_dsn
  mask_dsn_hides d e u v p q same rest = rw (p, q, mask_user-eq u.user v.user same, rest) refl

  -- A text that is no URL is logged as it is.
  pub mask_dsn_unparsed : (d : String) → urls.parse d ≡ none → mask_dsn urls d ≡ (d, "")
  unfolding mask_dsn
  mask_dsn_unparsed d p = rw p refl

  -- Without a part for the user nothing is masked.
  pub mask_dsn_without_user :
      (d : String) (u : Url R)
      → urls.parse d ≡ some u
      → u.user ≡ none
      → (mask_dsn urls d).0 ≡ urls.text u
  unfolding mask_dsn mask_user
  mask_dsn_without_user d u p n =
      rw p (ap urls.text (ap (λ x. record { user = x; rest = u.rest }) (ap mask_user n ∙ sym n)))
