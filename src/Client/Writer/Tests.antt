-- ===== src/Client/Writer/Tests.antt =====
-- A client whose connection keeps the frames that it is given, and one whose connection is gone.
use chatter_stack.Base.{
  ℕ, String, cat, ◌≡◌, refl, true, false, List, [], ◌∷◌, ◌++◌, arith, has_none,
}
use chatter_stack.Errors.{other}
use chatter_stack.Exec.{ok, err}
use chatter_stack.Client.Writer.{Conn, State, Event, put, receive, tick, flush, write_pump}
use chatter_stack.Client.Writer.Ending.{pump_ends}
use chatter_stack.Client.Writer.Frames.{Works, lines, seen}
use chatter_stack.Client.Writer.Order.{in_order, closing_delivers}

-- The frames that have been sent, and the one that is open.
abbrev Wire : Type 0
Wire = List String × String

abbrev wire : Conn Wire
wire = record {
  next_writer = λ w. (ok tt, (w.0, ""));
  write = λ s w. (ok tt, (w.0, cat w.1 s));
  close_writer = λ w. (ok tt, (w.0 ++ w.1 ∷ [], w.1));
  write_close = λ w. (ok tt, w);
  write_ping = λ w. (ok tt, w);
  close = λ w. (ok tt, w);
}

frames : Wire → List String
frames w = w.0

open_frame : Wire → String
open_frame w = w.1

wire-Works : Works frames open_frame wire
unfolding frames open_frame
wire-Works = record {
  next_writer = λ w. refl;
  next_writer_opens = λ w. refl;
  next_writer_frames = λ w. refl;
  write = λ s w. refl;
  write_adds = λ s w. refl;
  write_frames = λ s w. refl;
  close_writer = λ w. refl;
  close_writer_sends = λ w. refl;
  write_close_frames = λ w. refl;
  write_ping = λ w. refl;
  write_ping_frames = λ w. refl;
  close_frames = λ w. refl;
}

-- Every call fails.
abbrev gone : Conn ℕ
gone = record {
  next_writer = λ w. (err (other "gone"), w);
  write = λ s w. (err (other "gone"), w);
  close_writer = λ w. (err (other "gone"), w);
  write_close = λ w. (err (other "gone"), w);
  write_ping = λ w. (err (other "gone"), w);
  close = λ w. (ok tt, w);
}

abbrev idle : State Wire
idle = record { queue = []; closed = false; stopped = false; world = ([], "") }

abbrev three : List Event
three = put "a" ∷ receive ∷ put "b" ∷ put "c" ∷ tick ∷ receive ∷ []

-- What waits goes into one frame.
two_frames : (write_pump wire three idle).world.0 ≡ "a" ∷ "b\nc" ∷ []
unfolding write_pump flush
two_frames = refl

abbrev leaving : State Wire
leaving = record { queue = "a" ∷ "b" ∷ []; closed = true; stopped = false; world = ([], "") }

pump_ends_example :
    (write_pump gone
      (tick ∷ receive ∷ receive ∷ receive ∷ [])
      (record { queue = "a" ∷ "b" ∷ []; closed = true; stopped = false; world = 0 })).stopped
    ≡ true
pump_ends_example =
    pump_ends gone (tick ∷ receive ∷ receive ∷ receive ∷ [])
      (record { queue = "a" ∷ "b" ∷ []; closed = true; stopped = false; world = 0 }) refl tt
      (omega arith)

in_order_example :
    seen wire wire-Works (write_pump wire three idle)
    ≡ seen wire wire-Works idle ++ "a" ∷ "b" ∷ "c" ∷ []
unfolding has_none
in_order_example = in_order wire wire-Works three idle tt (refl, (refl, (refl, tt)))

closing_delivers_example :
    ((write_pump wire (receive ∷ tick ∷ receive ∷ []) leaving).stopped ≡ true)
    × (lines (frames (write_pump wire (receive ∷ tick ∷ receive ∷ []) leaving).world)
        ≡ lines (frames leaving.world) ++ "a" ∷ "b" ∷ [])
unfolding has_none
closing_delivers_example =
    closing_delivers wire wire-Works (receive ∷ tick ∷ receive ∷ []) leaving refl refl
      (refl, (refl, tt)) tt (omega arith)
