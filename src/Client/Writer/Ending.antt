-- ===== src/Client/Writer/Ending.antt =====
-- When `WritePump` of internal/delivery/websocket/client.go returns.
use chatter_stack.Base.{
  ℕ, suc, ◌<◌, ◌≤◌, String, ◌≡◌, refl, ◌⊎◌, true, List, [], ◌∷◌, length, arith, inl, inr,
  Bool-cases,
}
use chatter_stack.Exec.{Result, ok, err}
use chatter_stack.Client.Writer.{
  Conn, State, Event, put, close, receive, tick, flushed, flush, stop, go_on, after_write,
  after_next_writer, on_receive, step, write_pump,
}

-- How often `select` looks at the channel.
abbrev pub receives : List Event → ℕ
receives [] = 0
receives (receive ∷ events) = suc (receives events)
receives (put p ∷ events) = receives events
receives (close ∷ events) = receives events
receives (tick ∷ events) = receives events

-- Nothing is put into the channel.
abbrev pub IsQuiet : List Event → Type 0
IsQuiet [] = Unit
IsQuiet (put p ∷ events) = ⊥
IsQuiet (close ∷ events) = IsQuiet events
IsQuiet (receive ∷ events) = IsQuiet events
IsQuiet (tick ∷ events) = IsQuiet events

module _ {W : Type 0} (conn : Conn W) where
  flushed-le :
      (n : ℕ) (rest : W → List String × W) (q : List String) (r : Result (Unit {0}) × W)
      → ((w : W) → length (rest w).0 ≤ n)
      → length q ≤ n
      → length (flushed conn rest q r).0 ≤ n
  unfolding flushed
  flushed-le n rest q (ok u, w) h small = h w
  flushed-le n rest q (err e, w) h small = small

  -- What a flush leaves was there.
  flush-le : (q : List String) (w : W) → length (flush conn q w).0 ≤ length q
  unfolding flush
  flush-le [] w = omega arith
  flush-le (p ∷ q) w =
      flushed-le (suc (length q)) _ (p ∷ q) (conn.write "\n" w)
        (λ w1. omega (
          arith,
          flushed-le (length q) (flush conn q) q (conn.write p w1) (flush-le q) (omega arith),
        ))
        (omega arith)

  -- The pump has returned, or goes on with less than `n` payloads in a closed channel.
  abbrev IsNear : ℕ → State W → Type 0
  IsNear n s = (s.stopped ≡ true) ⊎ ((s.closed ≡ true) × (length s.queue < n))

  go_on-IsNear :
      (n : ℕ) (q : List String) (r : Result (Unit {0}) × W)
      → length q < n
      → IsNear n (go_on conn q true r)
  unfolding go_on stop
  go_on-IsNear n q (ok u, w) small = inr (refl, small)
  go_on-IsNear n q (err e, w) small = inl refl

  after_write-IsNear :
      (n : ℕ) (q : List String) (r : Result (Unit {0}) × W)
      → length q < n
      → IsNear n (after_write conn q true r)
  unfolding after_write stop
  after_write-IsNear n q (ok u, w) small =
      go_on-IsNear n (flush conn q w).0 (conn.close_writer (flush conn q w).1)
        (omega (arith, flush-le q w))
  after_write-IsNear n q (err e, w) small = inl refl

  after_next_writer-IsNear :
      (n : ℕ) (p : String) (q : List String) (r : Result (Unit {0}) × W)
      → length q < n
      → IsNear n (after_next_writer conn p q true r)
  unfolding after_next_writer stop
  after_next_writer-IsNear n p q (ok u, w) small = after_write-IsNear n q (conn.write p w) small
  after_next_writer-IsNear n p q (err e, w) small = inl refl

  on_receive-IsNear :
      (n : ℕ) (q : List String) (w : W) → length q < suc n → IsNear n (on_receive conn q true w)
  unfolding on_receive stop
  on_receive-IsNear n [] w small = inl refl
  on_receive-IsNear n (p ∷ q) w small =
      after_next_writer-IsNear n p q (conn.next_writer w) (omega arith)

  receive-IsNear :
      (n : ℕ) (s : State W)
      → s.closed ≡ true
      → length s.queue < suc n
      → IsNear n (step conn receive s)
  unfolding step
  receive-IsNear n s closed small = elim (Bool-cases s.stopped) [
    | inl e ↦ inl (ground arith)
    | inr e ↦ simp (e, closed) (on_receive-IsNear n s.queue s.world small)
  ]

  tick-IsNear :
      (n : ℕ) (s : State W) → s.closed ≡ true → length s.queue < n → IsNear n (step conn tick s)
  unfolding step
  tick-IsNear n s closed small = elim (Bool-cases s.stopped) [
    | inl e ↦ inl (ground arith)
    | inr e ↦ simp (e, closed) (go_on-IsNear n s.queue (conn.write_ping s.world) small)
  ]

  -- A pump that has returned stays so.
  pub stopped-stays :
      (events : List Event) (s : State W)
      → s.stopped ≡ true
      → (write_pump conn events s).stopped ≡ true
  unfolding write_pump step
  stopped-stays [] s h = h
  stopped-stays (put p ∷ events) s h = stopped-stays events (step conn (put p) s) h
  stopped-stays (close ∷ events) s h = stopped-stays events (step conn close s) h
  stopped-stays (receive ∷ events) s h = stopped-stays events (step conn receive s) (ground arith)
  stopped-stays (tick ∷ events) s h = stopped-stays events (step conn tick s) (ground arith)

  -- Once the channel of its client is closed and nothing more is put in, `WritePump` returns,
  -- whatever its connection does: at the latest when `select` has looked at the channel once more
  -- often than payloads wait.
  pub pump_ends :
      (events : List Event) (s : State W)
      → s.closed ≡ true
      → IsQuiet events
      → length s.queue < receives events
      → (write_pump conn events s).stopped ≡ true
  unfolding write_pump
  pump_ends [] s h quiet n = absurd (omega arith)
  pump_ends (put p ∷ events) s h quiet n = elim quiet [ ]
  pump_ends (close ∷ events) s h quiet n =
      pump_ends events (step conn close s) (unfold step in refl) quiet (unfold step in n)
  pump_ends (receive ∷ events) s h quiet n = elim (receive-IsNear (receives events) s h n) [
    | inl stopped ↦ stopped-stays events (step conn receive s) stopped
    | inr (closed, less) ↦ pump_ends events (step conn receive s) closed quiet less
  ]
  pump_ends (tick ∷ events) s h quiet n = elim (tick-IsNear (receives events) s h n) [
    | inl stopped ↦ stopped-stays events (step conn tick s) stopped
    | inr (closed, less) ↦ pump_ends events (step conn tick s) closed quiet less
  ]
