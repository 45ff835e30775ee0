-- ===== src/Middleware.antt =====
-- pkg/middleware/cors.go: which origins a browser may call from.
pub mod Origins
pub mod Bearer
pub mod Access
pub mod RateLimit
pub mod Unused
pub mod Tests
use chatter_stack.Base.{
  String, Bool, true, false, ◌||◌, ◌&&◌, not, Option, none, some, List, [], ◌∷◌, eqb, split_on,
  trim_space, if◌then◌else◌,
}

abbrev pub default_origin : String
default_origin = "https://chatterstack.vercel.app"

-- The loop of `parseAllowedOrigins` over the parts.
pub origins_of : List String → List String
origins_of [] = []
origins_of (o ∷ parts) =
    let rest = origins_of parts in if eqb (trim_space o) "" then rest else trim_space o ∷ rest

pub parse_allowed_origins : String → List String
unfolding origins_of split_on
parse_allowed_origins val =
    origins_of (split_on 44 (if eqb (trim_space val) "" then default_origin else val))

pub is_allowed_origin : String → List String → Bool
is_allowed_origin origin [] = false
is_allowed_origin origin (o ∷ allowed) = eqb o origin || is_allowed_origin origin allowed

-- What `CORS` answers: the origin that the headers allow, if they are set, and whether the request
-- is passed on; a preflight request is answered here.
unfoldable pub cors : List String → String → String → Option String × Bool
unfolding is_allowed_origin
cors allowed origin method = (
  if not (eqb origin "") && is_allowed_origin origin allowed then some origin else none,
  not (eqb method "OPTIONS"),
)
