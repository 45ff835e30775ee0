-- ===== src/Middleware/Origins.antt =====
-- The origins that pkg/middleware/cors.go lets in.
use chatter_stack.Base.{
  split_on, String, ◌≡◌, refl, arith, Bool, false, ◌||◌, ◌&&◌, not, none, some, List, [], ◌∷◌, eqb,
  eq_iff, trim_space, if◌then◌else◌,
}
use chatter_stack.Middleware.{
  default_origin, origins_of, parse_allowed_origins, is_allowed_origin, cors,
}

-- Whether one of the parts is the origin, spaces around it left out.
unfoldable pub names : String → List String → Bool
names origin [] = false
names origin (p ∷ parts) = eqb (trim_space p) origin || names origin parts

origins_of-allowed :
    (origin : String) (parts : List String)
    → (not (eqb origin "") && is_allowed_origin origin (origins_of parts))
      ≡ (not (eqb origin "") && names origin parts)
unfolding is_allowed_origin origins_of names
origins_of-allowed origin [] = refl
origins_of-allowed origin (p ∷ parts) = ground (
  arith,
  origins_of-allowed origin parts,
  eq_iff (trim_space p) "",
  eq_iff (trim_space p) origin,
  eq_iff origin "",
)

-- The headers allow the origin of a request if it is not empty and one of the parts of the
-- setting between commas, spaces around it left out; a blank setting stands for the default. They
-- never allow another one. Exactly the requests that are no preflight are passed on.
pub cors_answers :
    (val origin method : String)
    → cors (parse_allowed_origins val) origin method ≡ (
      if not (eqb origin "")
            && names origin (split_on 44 (if eqb (trim_space val) "" then default_origin else val))
          then some origin
          else none,
      not (eqb method "OPTIONS"),
    )
unfolding cors parse_allowed_origins
cors_answers val origin method =
    rw
      (origins_of-allowed origin
        (split_on 44 (if eqb (trim_space val) "" then default_origin else val)))
      refl
