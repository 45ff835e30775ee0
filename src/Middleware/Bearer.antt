-- ===== src/Middleware/Bearer.antt =====
-- pkg/middleware/auth.go: the token of a request, and the user it is passed on for. The validator is
-- a parameter, none if it is nil.
use Prim.Native.Char.{Char, code}
use chatter_stack.Base.{
  ℕ, ◌+◌, String, Bool, true, false, ◌&&◌, Option, none, some, eqb, leb, trim_space, ◌==◌,
  if◌then◌else◌,
}
use chatter_stack.Exec.{Result, ok, err, Exec}

put_first : Char → Option (String × String) → Option (String × String)
put_first c none = none
put_first c (some (p, q)) = some (String.◌∷◌ c p, q)

-- strings.SplitN(header, " ", 2), if there are two parts.
pub split_space : String → Option (String × String)
unfolding put_first
split_space String.[] = none
split_space (String.◌∷◌ c s) =
    let rest = split_space s in if code c == 32 then some ("", s) else put_first c rest

-- The small letter of an ASCII capital.
fold_code : ℕ → ℕ
fold_code n = if leb 65 n && leb n 90 then n + 32 else n

-- strings.EqualFold(s, t), for a text `t` whose letters have no other forms than the two of ASCII.
pub equal_fold : String → String → Bool
unfolding fold_code
equal_fold String.[] String.[] = true
equal_fold String.[] (String.◌∷◌ d t) = false
equal_fold (String.◌∷◌ c s) String.[] = false
equal_fold (String.◌∷◌ c s) (String.◌∷◌ d t) =
    (fold_code (code c) == fold_code (code d)) && equal_fold s t

bearer_part : Option (String × String) → String
unfolding equal_fold
bearer_part none = ""
bearer_part (some (p, q)) = if equal_fold p "Bearer" then trim_space q else ""

unfoldable pub extract_bearer_token : String → String
unfolding bearer_part split_space
extract_bearer_token header = bearer_part (split_space header)

-- The token of the header "Authorization", else that of "X-Auth-Token".
unfoldable pub request_token : String → String → String
unfolding extract_bearer_token
request_token header alt =
    let token = extract_bearer_token header in if eqb token "" then trim_space alt else token

-- A request is answered with a status and a text, or passed on with the id of a user.
pub data Outcome : Type 0 where
  aborted : ℕ → String → Outcome
  passed : String → Outcome

abbrev pub outcome_of : Result String → Outcome
outcome_of (ok id) = passed id
outcome_of (err e) = aborted 401 "invalid access token"

unfoldable pub authenticate :
    {W : Type 0} → Option (String → Exec W String) → String → String → W → Outcome × W
authenticate none header alt w = (aborted 500 "auth middleware not configured", w)
authenticate (some validate) header alt w =
    if eqb (request_token header alt) "" then (aborted 401 "missing bearer token", w) else (
      outcome_of (validate (request_token header alt) w).0,
      (validate (request_token header alt) w).1,
    )
