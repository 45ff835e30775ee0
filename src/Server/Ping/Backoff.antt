-- ===== src/Server/Ping/Backoff.antt =====
-- How long the pings of cmd/server/main.go wait, and when they end.
use chatter_stack.Base.{
  ℕ, zero, suc, ◌+◌, ◌*◌, ◌^◌, ◌≡◌, ◌≢◌, refl, List, [], ◌∷◌, arith, ltb, if◌then◌else◌,
}
use chatter_stack.Server.Ping.{
  second, Turn, cancelled, failed, answered, Outcome, given_up, succeeded, pinging, next_backoff,
  ping_from, ping,
}

-- The pings that fail before another turn.
abbrev pub failures : ℕ → List Turn → List Turn
failures zero turns = turns
failures (suc n) turns = failed ∷ failures n turns

-- 1, 2, 4, 8 and from then on 16 seconds, from the turn `k` on.
abbrev pub schedule : ℕ → ℕ → List ℕ
schedule k zero = []
schedule k (suc n) = (if ltb k 4 then 2 ^ k * second else 16 * second) ∷ schedule (k + 1) n

abbrev pub ending : Turn → Outcome
ending cancelled = given_up
ending answered = succeeded
ending failed = pinging

-- The wait after the failure number `k`.
abbrev delay : ℕ → ℕ
delay k = if ltb k 4 then 2 ^ k * second else 16 * second

next-delay : (k : ℕ) → next_backoff (delay k) ≡ delay (k + 1)
unfolding next_backoff
next-delay zero = refl
next-delay (suc zero) = refl
next-delay (suc (suc zero)) = refl
next-delay (suc (suc (suc zero))) = refl
next-delay (suc (suc (suc (suc k)))) = ground arith

ping_from-failures :
    (k n : ℕ) (t : Turn) (turns : List Turn)
    → t ≢ failed
    → ping_from (delay k) (failures n (t ∷ turns)) ≡ (schedule k n, ending t)
unfolding ping_from
ping_from-failures k zero cancelled turns h = refl
ping_from-failures k zero answered turns h = refl
ping_from-failures k zero failed turns h = absurd (h refl)
ping_from-failures k (suc n) t turns h =
    rw (next-delay k, ping_from-failures (k + 1) n t turns h) refl

-- The background ping ends at the first turn that does not fail: after `n` failures it ends as
-- given up if the context is done, and as succeeded if the ping is answered. Until then it has
-- slept 1, 2, 4 and 8 seconds and from then on 16 each time, `n` times in all.
pub ping_ends :
    (n : ℕ) (t : Turn) (turns : List Turn)
    → t ≢ failed
    → ping (failures n (t ∷ turns)) ≡ (schedule 0 n, ending t)
unfolding ping
ping_ends = ping_from-failures 0
