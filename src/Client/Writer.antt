-- ===== src/Client/Writer.antt =====
-- The loop `WritePump` of internal/delivery/websocket/client.go. The connection of gorilla/websocket is
-- a parameter; the deadlines are its matter.
pub mod Ending
pub mod Frames
pub mod Order
pub mod Tests
use chatter_stack.Base.{String, Bool, true, false, List, [], ◌∷◌, ◌++◌, if◌then◌else◌}
use chatter_stack.Exec.{Result, ok, err, Exec}

-- NextWriter for a text message, Write and Close of that writer, WriteMessage of a close message and of
-- a ping, and Close of the connection.
pub record Conn (W : Type 0) : Type 0 where
  pub next_writer : Exec W (Unit {0})
  pub write : String → Exec W (Unit {0})
  pub close_writer : Exec W (Unit {0})
  pub write_close : Exec W (Unit {0})
  pub write_ping : Exec W (Unit {0})
  pub close : Exec W (Unit {0})

-- The channel `Send` of the client, oldest payload first, whether the pump has returned, and the world
-- of the connection.
pub record State (W : Type 0) : Type 0 where
  pub queue : List String
  pub closed : Bool
  pub stopped : Bool
  pub world : W

-- A payload has been put into the channel; the channel has been closed; `select` looks at the channel,
-- or at the ticker.
pub data Event : Type 0 where
  put : String → Event
  close : Event
  receive : Event
  tick : Event

module _ {W : Type 0} (conn : Conn W) where
  -- The rest of a turn of the flush, after the write of the newline and after that of the payload. A
  -- failed write ends the flush.
  flushed : (W → List String × W) → List String → Result (Unit {0}) × W → List String × W
  flushed rest q (ok u, w) = rest w
  flushed rest q (err e, w) = (q, w)

  -- The `n` payloads that wait when the flush begins are all that are taken. What is left in the
  -- channel is the result.
  unfoldable pub flush : List String → W → List String × W
  unfolding flushed
  flush [] w = ([], w)
  flush (p ∷ q) w =
      flushed (λ w1. flushed (flush q) q (conn.write p w1)) (p ∷ q) (conn.write "\n" w)

  -- `return`, and the deferred Close.
  stop : List String → Bool → W → State W
  stop q closed w = record { queue = q; closed = closed; stopped = true; world = (conn.close w).1 }

  -- The end of a turn of the loop.
  pub go_on : List String → Bool → Result (Unit {0}) × W → State W
  unfolding stop
  go_on q closed (ok u, w) = record { queue = q; closed = closed; stopped = false; world = w }
  go_on q closed (err e, w) = stop q closed w

  after_write : List String → Bool → Result (Unit {0}) × W → State W
  unfolding go_on
  after_write q closed (ok u, w) =
      let (left, w1) = flush q w in go_on left closed (conn.close_writer w1)
  after_write q closed (err e, w) = stop q closed (conn.close_writer w).1

  after_next_writer : String → List String → Bool → Result (Unit {0}) × W → State W
  unfolding after_write
  after_next_writer p q closed (ok u, w) = after_write q closed (conn.write p w)
  after_next_writer p q closed (err e, w) = stop q closed w

  -- `case message, ok := <-c.Send`, which waits while the channel is open and empty.
  unfoldable pub on_receive : List String → Bool → W → State W
  unfolding after_next_writer
  on_receive (p ∷ q) closed w = after_next_writer p q closed (conn.next_writer w)
  on_receive [] true w = stop [] true (conn.write_close w).1
  on_receive [] false w = record { queue = []; closed = false; stopped = false; world = w }

  -- One event; after its return the pump takes nothing any more.
  unfoldable pub step : Event → State W → State W
  unfolding on_receive
  step (put p) s = record s { queue = s.queue ++ p ∷ [] }
  step close s = record s { closed = true }
  step receive s = if s.stopped then s else on_receive s.queue s.closed s.world
  step tick s = if s.stopped then s else go_on s.queue s.closed (conn.write_ping s.world)

  unfoldable pub write_pump : List Event → State W → State W
  unfolding step
  write_pump [] s = s
  write_pump (e ∷ events) s = write_pump events (step e s)
