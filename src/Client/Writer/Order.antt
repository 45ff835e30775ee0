-- ===== src/Client/Writer/Order.antt =====
-- The order in which `WritePump` of internal/delivery/websocket/client.go sends what it is given.
use mathlib.Core.List.{append_assoc as list-append_assoc, append-nil as list-append-nil}
use chatter_stack.Base.{
  ◌≤◌, String, cat, ◌≡◌, refl, sym, ap, ◌∙◌, Bool, true, false, List, [], ◌∷◌, ◌++◌, arith, All,
  All-append, inl, inr, Bool-cases,
}
use chatter_stack.Client.Writer.{
  Conn, State, Event, put, close, receive, tick, stop, on_receive, step, write_pump,
}
use chatter_stack.Client.Writer.Ending.{receives, IsQuiet, stopped-stays, pump_ends}
use chatter_stack.Client.Writer.Frames.{
  Works, IsLine, lines, puts, lines-append, joined, split_on-joined, seen, receive_frame, go_on-ok,
}

module _ {W : Type 0} {frames : W → List String} {open_frame : W → String} (conn : Conn W)
    (works : Works frames open_frame conn) where
  receive-seen :
      (q : List String) (closed : Bool) (w : W)
      → All IsLine q
      → (seen conn works (on_receive conn q closed w) ≡ lines (frames w) ++ q)
        × All IsLine (on_receive conn q closed w).queue
  receive-seen (p ∷ q) closed w h =
      let (emptied, sent, _, _) = receive_frame conn works p q closed w in
      (
        rw (emptied, sent)
            (list-append-nil _
              ∙ lines-append (frames w) (cat p (joined q) ∷ [])
              ∙ ap (λ l. lines (frames w) ++ l)
                  (unfold lines in list-append-nil _ ∙ split_on-joined p q h.0 h.1)),
        rw emptied tt,
      )
  receive-seen [] true w h =
      unfold on_receive stop in
      (
        ap (λ f. lines f ++ [])
            (works.close_frames (conn.write_close w).1 ∙ works.write_close_frames w),
        tt,
      )
  receive-seen [] false w h = unfold on_receive in (refl, tt)

  -- One event: what it puts into the channel comes behind everything else.
  step-seen :
      (e : Event) (s : State W)
      → All IsLine s.queue
      → All IsLine (puts (e ∷ []))
      → (seen conn works (step conn e s) ≡ seen conn works s ++ puts (e ∷ []))
        × All IsLine (step conn e s).queue
  unfolding step
  step-seen (put p) s h hp =
      (sym (list-append_assoc _ s.queue (p ∷ [])), All-append IsLine s.queue (p ∷ []) h hp)
  step-seen close s h hp = (sym (list-append-nil _), h)
  step-seen receive s h hp = elim (Bool-cases s.stopped) [
    | inl e ↦ simp e (sym (list-append-nil _), h)
    | inr e ↦
        let (same, lines) = receive-seen s.queue s.closed s.world h in
        simp e (same ∙ sym (list-append-nil _), lines)
  ]
  step-seen tick s h hp = elim (Bool-cases s.stopped) [
    | inl e ↦ simp e (sym (list-append-nil _), h)
    | inr e ↦
        simp
          (
            e,
            go_on-ok conn works s.queue s.closed (conn.write_ping s.world)
                (works.write_ping s.world),
            works.write_ping_frames,
          )
          (sym (list-append-nil _), h)
  ]

  puts-cons : (e : Event) (events : List Event) → puts (e ∷ events) ≡ puts (e ∷ []) ++ puts events
  puts-cons (put p) events = refl
  puts-cons close events = refl
  puts-cons receive events = refl
  puts-cons tick events = refl

  puts-All :
      (e : Event) (events : List Event)
      → All IsLine (puts (e ∷ events))
      → All IsLine (puts (e ∷ [])) × All IsLine (puts events)
  puts-All (put p) events h = ((h.0, tt), h.1)
  puts-All close events h = (tt, h)
  puts-All receive events h = (tt, h)
  puts-All tick events h = (tt, h)

  -- With a connection that works, and payloads without line breaks, `WritePump` sends what is put
  -- into the channel of its client once and in order: whatever the events are, the lines of the
  -- text frames it has sent, followed by what still waits, are those from before followed by what
  -- has been put in.
  pub in_order :
      (events : List Event) (s : State W)
      → All IsLine s.queue
      → All IsLine (puts events)
      → seen conn works (write_pump conn events s) ≡ seen conn works s ++ puts events
  unfolding write_pump
  in_order [] s h hp = sym (list-append-nil _)
  in_order (e ∷ events) s h hp =
      let (now, later) = puts-All e events hp in
      let (same, lines) = step-seen e s h now in
      in_order events (step conn e s) lines later
      ∙ ap (λ l. l ++ puts events) same
      ∙ list-append_assoc (seen conn works s) (puts (e ∷ [])) (puts events)
      ∙ ap (λ l. seen conn works s ++ l) (sym (puts-cons e events))

  receive-empty : (closed : Bool) (w : W) → (on_receive conn [] closed w).queue ≡ []
  unfolding on_receive stop
  receive-empty true w = refl
  receive-empty false w = refl

  -- Only a payload that is put makes the channel longer.
  quiet-empty :
      (events : List Event) (s : State W)
      → IsQuiet events
      → s.queue ≡ []
      → (write_pump conn events s).queue ≡ []
  unfolding write_pump step
  quiet-empty [] s h e = e
  quiet-empty (put p ∷ events) s h e = elim h [ ]
  quiet-empty (close ∷ events) s h e = quiet-empty events (step conn close s) h e
  quiet-empty (receive ∷ events) s h e =
      quiet-empty events (step conn receive s) h (elim (Bool-cases s.stopped) [
        | inl f ↦ simp f e
        | inr f ↦ simp (f, e) (receive-empty s.closed s.world)
      ])
  quiet-empty (tick ∷ events) s h e =
      quiet-empty events (step conn tick s) h (elim (Bool-cases s.stopped) [
        | inl f ↦ simp f e
        | inr f ↦
            simp
              (
                f,
                e,
                go_on-ok conn works [] s.closed (conn.write_ping s.world)
                    (works.write_ping s.world),
              )
              refl
      ])

  quiet-puts : (events : List Event) → IsQuiet events → puts events ≡ []
  quiet-puts [] h = refl
  quiet-puts (put p ∷ events) h = elim h [ ]
  quiet-puts (close ∷ events) h = quiet-puts events h
  quiet-puts (receive ∷ events) h = quiet-puts events h
  quiet-puts (tick ∷ events) h = quiet-puts events h

  -- The first look at the channel takes all of it, and the second one sees that it is closed.
  receive_ends :
      (q : List String) (w : W) (events : List Event) (s : State W)
      → s ≡ on_receive conn q true w
      → IsQuiet events
      → 1 ≤ receives events
      → ((write_pump conn events s).stopped ≡ true) × ((write_pump conn events s).queue ≡ [])
  receive_ends [] w events s e quiet n =
      let stopped : s.stopped ≡ true = unfold on_receive stop in rw e refl in
      let empty : s.queue ≡ [] = unfold on_receive stop in rw e refl in
      (stopped-stays conn events s stopped, quiet-empty events s quiet empty)
  receive_ends (p ∷ q) w events s e quiet n =
      let (emptied, _, still_closed, _) = receive_frame conn works p q true w in
      let empty : s.queue ≡ [] = ap (λ t. t.queue) e ∙ emptied in
      (
        pump_ends conn events s (ap (λ t. t.closed) e ∙ still_closed) quiet (rw empty n),
        quiet-empty events s quiet empty,
      )

  running_ends :
      (events : List Event) (s : State W)
      → s.closed ≡ true
      → s.stopped ≡ false
      → IsQuiet events
      → 2 ≤ receives events
      → ((write_pump conn events s).stopped ≡ true) × ((write_pump conn events s).queue ≡ [])
  unfolding write_pump
  running_ends [] s closed running quiet n = absurd (omega arith)
  running_ends (put p ∷ events) s closed running quiet n = elim quiet [ ]
  running_ends (close ∷ events) s closed running quiet n =
      running_ends events (step conn close s) (unfold step in refl) (unfold step in running) quiet n
  running_ends (receive ∷ events) s closed running quiet n =
      receive_ends s.queue s.world events (step conn receive s)
        (unfold step in simp (running, closed) refl) quiet (omega arith)
  running_ends (tick ∷ events) s closed running quiet n =
      let e : step conn tick s ≡ record s { world = (conn.write_ping s.world).1 } =
        unfold step in
        simp
          (
            running,
            go_on-ok conn works s.queue s.closed (conn.write_ping s.world)
                (works.write_ping s.world),
          )
          refl in
      running_ends events (step conn tick s) (rw e closed) (rw e running) quiet n

  -- If the channel of a running `WritePump` is closed, nothing more is put in, the connection
  -- works and the waiting payloads have no line breaks, the pump has returned when `select` has
  -- looked at the channel twice, and has sent all that waited, in order.
  pub closing_delivers :
      (events : List Event) (s : State W)
      → s.closed ≡ true
      → s.stopped ≡ false
      → All IsLine s.queue
      → IsQuiet events
      → 2 ≤ receives events
      → ((write_pump conn events s).stopped ≡ true)
        × (lines (frames (write_pump conn events s).world) ≡ lines (frames s.world) ++ s.queue)
  closing_delivers events s closed running h quiet n =
      let (stopped, empty) = running_ends events s closed running quiet n in
      let nothing : All IsLine (puts events) = rw (quiet-puts events quiet) tt in
      let same = in_order events s h nothing in
      (
        stopped,
        sym (list-append-nil _)
            ∙ ap (λ q. lines (frames (write_pump conn events s).world) ++ q) (sym empty)
            ∙ same
            ∙ ap (λ q. seen conn works s ++ q) (quiet-puts events quiet)
            ∙ list-append-nil _,
      )
