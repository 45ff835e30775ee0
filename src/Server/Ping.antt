-- ===== src/Server/Ping.antt =====
-- The background pings of startAPIServer and startWebsocketServer in cmd/server/main.go. Durations are
-- in nanoseconds.
pub mod Backoff
use chatter_stack.Base.{ℕ, ◌*◌, List, [], ◌∷◌, ltb, if◌then◌else◌}

abbrev pub second : ℕ
second = 1_000_000_000

-- What a turn of the loop meets: the context is done, the ping fails, or it succeeds.
pub data Turn : Type 0 where
  cancelled failed answered : Turn

-- The loop has ended without an answer or with one, or it goes on.
pub data Outcome : Type 0 where
  given_up succeeded pinging : Outcome

-- `if backoff < 10*time.Second { backoff *= 2 }`
next_backoff : ℕ → ℕ
next_backoff backoff = if ltb backoff (10 * second) then backoff * 2 else backoff

abbrev later : ℕ → List ℕ × Outcome → List ℕ × Outcome
later backoff (sleeps, outcome) = (backoff ∷ sleeps, outcome)

-- How long the loop sleeps each time, and how it stands at the end of these turns.
ping_from : ℕ → List Turn → List ℕ × Outcome
unfolding next_backoff
ping_from backoff [] = ([], pinging)
ping_from backoff (cancelled ∷ turns) = ([], given_up)
ping_from backoff (answered ∷ turns) = ([], succeeded)
ping_from backoff (failed ∷ turns) = later backoff (ping_from (next_backoff backoff) turns)

unfoldable pub ping : List Turn → List ℕ × Outcome
unfolding ping_from
ping turns = ping_from second turns
