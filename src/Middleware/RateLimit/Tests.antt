-- ===== src/Middleware/RateLimit/Tests.antt =====
-- Two keys in one table, with limiters that let two requests pass.
use chatter_stack.Base.{ℕ, ◌-◌, ◌≡◌, refl, true, false, List, [], ◌∷◌, ltb, negsuc, pos}
use chatter_stack.Base.Dict
use chatter_stack.Middleware.RateLimit.{RateLimiter, Event, request, tick, answers, with_defaults}
use chatter_stack.Middleware.RateLimit.Apart.{own_answers, answers-eq}

abbrev pub twice : RateLimiter ℕ
twice = record { fresh = 2; allow = λ left now. (ltb 0 left, left - 1); window = 10 }

abbrev events : List Event
events =
    request "a" 1
    ∷ request "b" 2
    ∷ request "a" 3
    ∷ tick 10
    ∷ request "a" 11
    ∷ tick 40
    ∷ request "a" 41
    ∷ []

answers-eq_example : answers twice "a" events [] ≡ true ∷ true ∷ false ∷ true ∷ []
unfolding own_answers Dict.get
answers-eq_example = answers-eq twice "a" events [] tt

defaults :
    with_defaults (record { requests = negsuc 4; window = pos 0; burst = pos 0 })
    ≡ record { requests = pos 100; window = pos 60000000000; burst = pos 100 }
unfolding with_defaults
defaults = refl
