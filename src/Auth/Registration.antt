-- ===== src/Auth/Registration.antt =====
-- What `Register` of internal/domain/auth/service_impl.go stores and returns.
use chatter_stack.Base.{
  String, ◌≡◌, refl, ap, sym, ◌∙◌, arith, true, false, eqb, inl, inr, Bool-cases,
}
use chatter_stack.Errors.{
  Error, auth, no_rows, email_already_used, is_no_rows, user_not_found, cache_miss, room, message,
  pg, other,
}
use chatter_stack.Exec.{Result, ok, err, Result-cases, >>=-ok, ◌>>=◌, pure}
use chatter_stack.Models.{User}
use chatter_stack.Utils.{hash_password}
use chatter_stack.Auth.{
  Service, RegisterInput, register, validate_register_input, require_free, new_user, is_blank,
  normalize_email,
}

-- Whether the code lets a registration pass its first checks.
abbrev pub IsFilled : RegisterInput → Type 0
IsFilled input =
    (is_blank input.username ≡ false)
    × (is_blank input.email ≡ false)
    × (eqb input.password "" ≡ false)

is_no_rows-eq : (e : Error) → is_no_rows e ≡ true → e ≡ no_rows
is_no_rows-eq no_rows h = refl
is_no_rows-eq user_not_found h = cc
is_no_rows-eq cache_miss h = cc
is_no_rows-eq (auth x) h = cc
is_no_rows-eq (room x) h = cc
is_no_rows-eq (message x) h = cc
is_no_rows-eq (pg x y z) h = cc
is_no_rows-eq (other x) h = cc

with_world :
    {W A : Type 0} {p : Result A × W} {r : Result A} {w : W} → p.0 ≡ r → p.1 ≡ w → p ≡ (r, w)
with_world e f = ground arith

ok_inj : {A : Type 0} {a b : A} → ok a ≡ ok b → a ≡ b
ok_inj e = cc

module _ {W : Type 0} (s : Service W) where
  open s use {users}

  created :
      (input : RegisterInput) (u : User) (w w' : W)
      → (hash_password s.crypto input.password >>= λ hash.
            (users.create (new_user s input hash) >>= λ user.
            pure (record user { password_hash = "" })))
          w
        ≡ (ok u, w')
      → (hash : String) × (stored : User) × (w1 : W) × (hash_password s.crypto input.password w
          ≡ (ok hash, w1))
        × (users.create (new_user s input hash) w1 ≡ (ok stored, w'))
        × (u ≡ record stored { password_hash = "" })
  created input u w w' h =
      let (hash, hashed, h1) =
        >>=-ok (hash_password s.crypto input.password)
          (λ hash. users.create (new_user s input hash) >>= λ user.
            pure (record user { password_hash = "" }))
          w h in
      let w1 = (hash_password s.crypto input.password w).1 in
      let (stored, kept, h2) =
        >>=-ok (users.create (new_user s input hash))
          (λ user. pure (record user { password_hash = "" })) w1 h1 in
      (
        hash,
        stored,
        w1,
        with_world hashed refl,
        with_world kept (ap (λ p. p.1) h2),
        ok_inj (ap (λ p. p.0) (sym h2)),
      )

  -- `Register` succeeds only for an input that is filled in, with an email that, normalized, the
  -- look-up does not find. Then the repository has stored the user with the hash of the password,
  -- and what is returned is that user without the hash.
  pub register_stores :
      (input : RegisterInput) (u : User) (w w' : W)
      → register s input w ≡ (ok u, w')
      → IsFilled input
        × ((users.get_by_email (normalize_email s input.email) w).0 ≡ err no_rows)
        × (hash : String) × (stored : User) × (w1 : W) × (hash_password s.crypto input.password
              (users.get_by_email (normalize_email s input.email) w).1
            ≡ (ok hash, w1))
        × (users.create (new_user s input hash) w1 ≡ (ok stored, w'))
        × (u ≡ record stored { password_hash = "" })
  unfolding register validate_register_input require_free
  register_stores input u w w' h =
      let found = users.get_by_email (normalize_email s input.email) w in
      elim (Bool-cases (is_blank input.username)) [
        | inl a ↦ absurd (ground (arith, rw a at h))
        | inr a ↦ elim (Bool-cases (is_blank input.email)) [
          | inl b ↦ absurd (ground (arith, rw (a, b) at h))
          | inr b ↦ elim (Bool-cases (eqb input.password "")) [
            | inl c ↦ absurd (ground (arith, rw (a, b, c) at h))
            | inr c ↦ elim (Result-cases found.0) [
              | inl (taken, f) ↦ absurd (ground (arith, rw (a, b, c, f) at h))
              | inr (e, f) ↦ elim (Bool-cases (is_no_rows e)) [
                | inr d ↦ absurd (ground (arith, rw (a, b, c, f, d) at h))
                | inl d ↦
                    let (hash, stored, w1, hashed, kept, shown) =
                      created input u found.1 w' (rw (a, b, c, f, d) at h) in
                    (
                      (a, b, c),
                      f ∙ ap err (is_no_rows-eq e d),
                      hash,
                      stored,
                      w1,
                      hashed,
                      kept,
                      shown,
                    )
              ]
            ]
          ]
        ]
      ]

  -- A registration that is filled in, with an email that is in use, is refused, and no user is
  -- created.
  pub taken_email_refused :
      (input : RegisterInput) (user : User) (w : W)
      → is_blank input.username ≡ false
      → is_blank input.email ≡ false
      → eqb input.password "" ≡ false
      → (users.get_by_email (normalize_email s input.email) w).0 ≡ ok user
      → register s input w
        ≡ (err (auth email_already_used), (users.get_by_email (normalize_email s input.email) w).1)
  unfolding register validate_register_input require_free
  taken_email_refused input user w a b c found = rw (a, b, c, found) refl
