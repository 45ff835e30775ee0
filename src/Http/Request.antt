-- ===== src/Http/Request.antt =====
-- internal/delivery/http: what the handlers read of a request and how they answer. The parameters
-- of the path, the query and the JSON body come from gin; a body that cannot be read is none.
pub mod Bounds
use chatter_stack.Base.{
  ℕ, ℤ, pos, leb_ℤ, String, Bool, true, false, Option, none, some, List, eqb, ◌==◌, trim_space,
  atoi, if◌then◌else◌,
}
use chatter_stack.Errors.{Error}
use chatter_stack.Exec.{Result, ok, err, Exec}
use chatter_stack.Http.Failures.{internal}
use chatter_stack.Http.Payloads.{
  UserPayload, TokenPayload, MessagePayload, RoomPayload, RoomMemberPayload,
}

pub data Body : Type 0 where
  empty : Body
  error : String → Body
  user : UserPayload → Body
  tokens : TokenPayload → Body
  message : MessagePayload → Body
  messages : List MessagePayload → Body
  room : RoomPayload → Body
  rooms : List RoomPayload → Body
  members : List RoomMemberPayload → Body

pub record Response : Type 0 where
  pub status : ℕ
  pub body : Body

-- `param` and `query` are c.Param and c.Query, empty for a name that is not there; `user_id` is what
-- the authentication middleware has put into the context.
pub record Request : Type 0 where
  pub param : String → String
  pub query : String → String
  pub user_id : Option String

abbrev pub Handler : Type 0 → Type 0
Handler W = W → Response × W

module _ {W : Type 0} where
  abbrev pub reply : ℕ → Body → Handler W
  reply status body w = (record { status = status; body = body }, w)

  -- respondJSONError
  abbrev pub reject : ℕ → String → Handler W
  reject status text = reply status (error text)

-- What a handler answers after a call that failed.
abbrev pub failure : ℕ × String → Response
failure (status, text) =
    if status == 500
    then record { status = 500; body = error "internal server error" }
    else record { status = status; body = error text }

abbrev pub outcome : {A : Type 0} → (Error → ℕ × String) → (A → Response) → Result A → Response
outcome f show (ok a) = show a
outcome f show (err e) = failure (f e)

-- `a, err := call; if err != nil { … }`, then the answer
abbrev pub answer_with :
    {W A : Type 0} → (Error → ℕ × String) → (A → Response) → Exec W A → Handler W
answer_with f show m w = (outcome f show (m w).0, (m w).1)

abbrev pub shown : {A : Type 0} → ℕ → (A → Body) → A → Response
shown status f a = record { status = status; body = f a }

abbrev pub no_content : {A : Type 0} → A → Response
no_content a = record { status = 204; body = empty }

-- currentUserID
unfoldable pub current_user_id : Request → Option String
current_user_id r = elim r.user_id [
  | none ↦ none
  | some id ↦ if eqb (trim_space id) "" then none else some id
]

module _ {W : Type 0} where
  -- `userID, ok := currentUserID(c); if !ok { … }`
  abbrev pub for_user : Option String → (String → Handler W) → Handler W
  for_user none f = reject 401 "unauthorized"
  for_user (some id) f = f id

  -- `if err := c.ShouldBindJSON(&req); err != nil { … }`
  abbrev pub for_body : {B : Type 0} → Option B → (B → Handler W) → Handler W
  for_body none f = reject 400 "invalid JSON payload"
  for_body (some b) f = f b

-- A number in the query that has to be positive; `missing` if it is not there.
abbrev pub positive_only : Option ℤ → Option ℤ
positive_only none = none
positive_only (some n) = if leb_ℤ n (pos 0) then none else some n

unfoldable pub parse_positive : ℤ → String → Option ℤ
parse_positive missing v = if eqb v "" then some missing else positive_only (atoi v)

pair_up : Option ℤ → Option ℤ → Option (ℤ × ℤ)
pair_up (some page) (some limit) = some (page, limit)
pair_up _ _ = none

-- parsePagination
unfoldable pub parse_pagination : Request → Option (ℤ × ℤ)
unfolding pair_up parse_positive
parse_pagination r =
    pair_up (parse_positive (pos 1) (r.query "page")) (parse_positive (pos 0) (r.query "limit"))
