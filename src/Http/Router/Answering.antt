-- ===== src/Http/Router/Answering.antt =====
-- How the answers of the handlers of internal/delivery/http are put together.
use chatter_stack.Base.{
  ℕ, ◌≤◌, String, ◌≡◌, Bool, true, false, Option, none, some, ◌⊎◌, inl, inr, arith, if◌then◌else◌,
}
use chatter_stack.Errors.{Error}
use chatter_stack.Exec.{Result, ok, err, Exec}
use chatter_stack.Http.Hiding.{IsAnswer}
use chatter_stack.Http.Request.{
  error, shown, Response, Handler, failure, outcome, answer_with, for_body, for_user, reject,
}

-- A success, an error of the client, or the one text that is told of any other failure.
unfoldable pub IsServed : Response → Type 0
IsServed r =
    ((200 ≤ r.status) × (r.status ≤ 204))
    ⊎ (((400 ≤ r.status) × (r.status ≤ 499))
        ⊎ (r ≡ record { status = 500; body = error "internal server error" }))

failure-IsServed : (a : ℕ × String) → IsAnswer a → IsServed (failure a)
unfolding IsServed
failure-IsServed (status, text) (inl (p, q)) = ground arith
failure-IsServed (status, text) (inr e) = ground arith

outcome-IsServed :
    {A : Type 0} (f : Error → ℕ × String) (show : A → Response)
    → ((e : Error) → IsAnswer (f e))
    → ((a : A) → IsServed (show a))
    → (r : Result A) → IsServed (outcome f show r)
unfolding IsServed
outcome-IsServed f show told shown (ok a) = shown a
outcome-IsServed f show told shown (err e) = failure-IsServed (f e) (told e)

module _ {W : Type 0} where
  pub for_body-IsServed :
      {B : Type 0} (body : Option B) (f : B → Handler W) (w : W)
      → ((b : B) → IsServed (f b w).0)
      → IsServed (for_body body f w).0
  unfolding IsServed
  for_body-IsServed none f w h = inr (inl (omega arith, omega arith))
  for_body-IsServed (some b) f w h = h b

  pub for_user-IsServed :
      (user : Option String) (f : String → Handler W) (w : W)
      → ((id : String) → IsServed (f id w).0)
      → IsServed (for_user user f w).0
  unfolding IsServed
  for_user-IsServed none f w h = inr (inl (omega arith, omega arith))
  for_user-IsServed (some id) f w h = h id

  pub unless-IsServed :
      (b : Bool) (text : String) (m : Handler W) (w : W)
      → IsServed (m w).0
      → IsServed (if b then reject 400 text w else m w).0
  unfolding IsServed
  unless-IsServed true text m w h = inr (inl (omega arith, omega arith))
  unless-IsServed false text m w h = h

  pub answer-IsServed :
      {A : Type 0} (f : Error → ℕ × String) (show : A → Response) (m : Exec W A) (w : W)
      → ((e : Error) → IsAnswer (f e))
      → ((a : A) → IsServed (show a))
      → IsServed (answer_with f show m w).0
  answer-IsServed f show m w told h = outcome-IsServed f show told h (m w).0

  pub unless_answer-IsServed :
      {A : Type 0} (b : Bool) (text : String) (f : Error → ℕ × String) (show : A → Response)
      (m : Exec W A) (w : W)
      → ((e : Error) → IsAnswer (f e))
      → ((a : A) → IsServed (show a))
      → IsServed (if b then reject 400 text w else answer_with f show m w).0
  unless_answer-IsServed b text f show m w told h =
      unless-IsServed b text (answer_with f show m) w (answer-IsServed f show m w told h)

  pub reject-IsServed : (text : String) (w : W) → IsServed (reject {W = W} 400 text w).0
  unfolding IsServed
  reject-IsServed text w = inr (inl (omega arith, omega arith))

pub success : (r : Response) → 200 ≤ r.status → r.status ≤ 204 → IsServed r
unfolding IsServed
success r p q = inl (p, q)
