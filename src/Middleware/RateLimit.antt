-- ===== src/Middleware/RateLimit.antt =====
-- pkg/middleware/rate_limit.go: the table of visitors. A limiter of golang.org/x/time/rate is a value
-- of a type `L` that a request may change; times are in nanoseconds.
pub mod Apart
pub mod Tests
use chatter_stack.Base.{
  ℕ, ◌+◌, ◌*◌, ℤ, pos, leb_ℤ, String, ◌≡◌, ◌≢◌, refl, sym, ap, Bool, true, false, Option, none,
  some, List, [], ◌∷◌, arith, inl, inr, eqb, eq_iff, ltb, Bool-cases, if◌then◌else◌,
}
use chatter_stack.Base.Dict
use chatter_stack.Base.Dict.{Dict}

pub record Visitor (L : Type 0) : Type 0 where
  pub limiter : L
  pub last_seen : ℕ

-- `fresh` is rate.NewLimiter with the limit and the burst of the configuration, `allow` is Allow at a
-- time: whether the request may pass, and the limiter after it.
pub record RateLimiter (L : Type 0) : Type 0 where
  pub fresh : L
  pub allow : L → ℕ → Bool × L
  pub window : ℕ

pub record Limits : Type 0 where
  pub requests : ℤ
  pub window : ℤ
  pub burst : ℤ

-- The defaults of `RateLimit`.
pub with_defaults : Limits → Limits
with_defaults cfg =
    let requests = if leb_ℤ cfg.requests (pos 0) then pos 100 else cfg.requests in
    record {
      requests = requests;
      window = if leb_ℤ cfg.window (pos 0) then pos 60000000000 else cfg.window;
      burst = if leb_ℤ cfg.burst (pos 0) then requests else cfg.burst;
    }

module _ {L : Type 0} (r : RateLimiter L) where
  unfoldable pub limiter_of : Option (Visitor L) → L
  limiter_of none = r.fresh
  limiter_of (some v) = v.limiter

  -- getVisitor and Allow: the limiter in the table is the one that is changed.
  pub handle : String → ℕ → Dict (Visitor L) → Bool × Dict (Visitor L)
  unfolding limiter_of
  handle key now visitors =
      let (allowed, limiter) = r.allow (limiter_of (Dict.get key visitors)) now in
      (allowed, Dict.put key (record { limiter = limiter; last_seen = now }) visitors)

  -- `v.lastSeen.Before(cutoff)`
  unfoldable pub is_stale : ℕ → Visitor L → Bool
  is_stale now v = ltb (v.last_seen + r.window * 2) now

  pub cleanup : ℕ → Dict (Visitor L) → Dict (Visitor L)
  unfolding is_stale
  cleanup now [] = []
  cleanup now ((key, v) ∷ visitors) =
      let rest = cleanup now visitors in if is_stale now v then rest else (key, v) ∷ rest

-- What reaches the table, in some order: a request of a key at a time, or a tick of the clean-up.
pub data Event : Type 0 where
  request : String → ℕ → Event
  tick : ℕ → Event

module _ {L : Type 0} (r : RateLimiter L) where
  -- Whether the requests of a key pass, in their order.
  pub answers : String → List Event → Dict (Visitor L) → List Bool
  unfolding handle cleanup
  answers key [] visitors = []
  answers key (request j now ∷ events) visitors =
      let (allowed, visitors') = handle r j now visitors in
      let rest = answers key events visitors' in if eqb j key then allowed ∷ rest else rest
  answers key (tick now ∷ events) visitors = answers key events (cleanup r now visitors)
