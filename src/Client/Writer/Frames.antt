-- ===== src/Client/Writer/Frames.antt =====
-- What the frames of `WritePump` of internal/delivery/websocket/client.go hold.
use text.Mathlib.TextLemmas.{append_assoc, append-nil, nil-append}
use mathlib.Core.List.{append_assoc as list-append_assoc}
use chatter_stack.Base.{
  String, cat, ◌≡◌, refl, sym, ap, ◌∙◌, Bool, true, false, List, [], ◌∷◌, ◌++◌, All, split_on,
  has_none, split_on-append, split_on_of_none,
}
use chatter_stack.Exec.{Result, ok, err}
use chatter_stack.Client.Writer.{
  Conn, State, Event, put, close, receive, tick, flushed, flush, go_on, after_write,
  after_next_writer, on_receive,
}

-- A connection of which every call succeeds: what is written between NextWriter and Close is a frame.
-- `frames` are the text frames that have been sent, `open_frame` is what the next one holds so far.
pub record Works {W : Type 0} (frames : W → List String) (open_frame : W → String) (conn : Conn W)
    : Type 0 where
  pub next_writer : (w : W) → (conn.next_writer w).0 ≡ ok tt
  pub next_writer_opens : (w : W) → open_frame (conn.next_writer w).1 ≡ ""
  pub next_writer_frames : (w : W) → frames (conn.next_writer w).1 ≡ frames w
  pub write : (s : String) (w : W) → (conn.write s w).0 ≡ ok tt
  pub write_adds : (s : String) (w : W) → open_frame (conn.write s w).1 ≡ cat (open_frame w) s
  pub write_frames : (s : String) (w : W) → frames (conn.write s w).1 ≡ frames w
  pub close_writer : (w : W) → (conn.close_writer w).0 ≡ ok tt
  pub close_writer_sends : (w : W) → frames (conn.close_writer w).1 ≡ frames w ++ open_frame w ∷ []
  pub write_close_frames : (w : W) → frames (conn.write_close w).1 ≡ frames w
  pub write_ping : (w : W) → (conn.write_ping w).0 ≡ ok tt
  pub write_ping_frames : (w : W) → frames (conn.write_ping w).1 ≡ frames w
  pub close_frames : (w : W) → frames (conn.close w).1 ≡ frames w

-- Encoded JSON has no line breaks.
abbrev pub IsLine : String → Type 0
IsLine p = has_none 10 p ≡ true

-- The lines of some frames, in their order.
unfoldable pub lines : List String → List String
lines [] = []
lines (f ∷ frames) = split_on 10 f ++ lines frames

-- What is put into the channel.
abbrev pub puts : List Event → List String
puts [] = []
puts (put p ∷ events) = p ∷ puts events
puts (close ∷ events) = puts events
puts (receive ∷ events) = puts events
puts (tick ∷ events) = puts events

-- The payloads of a flush as they stand in the frame.
unfoldable pub joined : List String → String
joined [] = ""
joined (p ∷ q) = cat "\n" (cat p (joined q))

pub split_on-joined :
    (p : String) (q : List String)
    → IsLine p
    → All IsLine q
    → split_on 10 (cat p (joined q)) ≡ p ∷ q
unfolding joined
split_on-joined p [] h hq = rw (append-nil p) (split_on_of_none 10 p h)
split_on-joined p (r ∷ q) h hq =
    split_on-append 10 "\n" p (cat r (joined q)) refl h
    ∙ ap (λ l. p ∷ l) (split_on-joined r q hq.0 hq.1)

pub lines-append : (fs gs : List String) → lines (fs ++ gs) ≡ lines fs ++ lines gs
unfolding lines
lines-append [] gs = refl
lines-append (f ∷ fs) gs =
    ap (λ l. split_on 10 f ++ l) (lines-append fs gs)
    ∙ sym (list-append_assoc (split_on 10 f) (lines fs) (lines gs))

module _ {W : Type 0} {frames : W → List String} {open_frame : W → String} (conn : Conn W)
    (works : Works frames open_frame conn) where
  flushed-ok :
      (rest : W → List String × W) (q : List String) (r : Result (Unit {0}) × W)
      → r.0 ≡ ok tt
      → flushed conn rest q r ≡ rest r.1
  unfolding flushed
  flushed-ok rest q (ok u, w) h = refl
  flushed-ok rest q (err e, w) h = cc

  -- A flush takes what waits into the frame.
  record IsFlushed (q : List String) (w : W) (left : List String) (w' : W) : Type 0 where
    all : left ≡ []
    same : frames w' ≡ frames w
    added : open_frame w' ≡ cat (open_frame w) (joined q)

  flush-IsFlushed : (q : List String) (w : W) → IsFlushed q w (flush conn q w).0 (flush conn q w).1
  unfolding flush joined
  flush-IsFlushed [] w = record { all = refl; same = refl; added = sym (append-nil (open_frame w)) }
  flush-IsFlushed (p ∷ q) w =
      let w1 = (conn.write "\n" w).1 in
      let w2 = (conn.write p w1).1 in
      let ih = flush-IsFlushed q w2 in
      rw
        (
          flushed-ok (λ w1. flushed conn (flush conn q) q (conn.write p w1)) (p ∷ q)
              (conn.write "\n" w) (works.write "\n" w),
          flushed-ok (flush conn q) q (conn.write p w1) (works.write p w1),
        )
        record {
          all = ih.all;
          same = ih.same ∙ works.write_frames p w1 ∙ works.write_frames "\n" w;
          added = simp (ih.added, works.write_adds, append_assoc);
        }

  pub go_on-ok :
      (q : List String) (closed : Bool) (r : Result (Unit {0}) × W)
      → r.0 ≡ ok tt
      → go_on conn q closed r ≡ record { queue = q; closed = closed; stopped = false; world = r.1 }
  unfolding go_on
  go_on-ok q closed (ok u, w) h = refl
  go_on-ok q closed (err e, w) h = cc

  after_write-ok :
      (q : List String) (closed : Bool) (r : Result (Unit {0}) × W)
      → r.0 ≡ ok tt
      → after_write conn q closed r
        ≡ go_on conn (flush conn q r.1).0 closed (conn.close_writer (flush conn q r.1).1)
  unfolding after_write
  after_write-ok q closed (ok u, w) h = refl
  after_write-ok q closed (err e, w) h = cc

  after_next_writer-ok :
      (p : String) (q : List String) (closed : Bool) (r : Result (Unit {0}) × W)
      → r.0 ≡ ok tt
      → after_next_writer conn p q closed r ≡ after_write conn q closed (conn.write p r.1)
  unfolding after_next_writer
  after_next_writer-ok p q closed (ok u, w) h = refl
  after_next_writer-ok p q closed (err e, w) h = cc

  -- What has been sent and what waits, in order.
  abbrev pub seen : State W → List String
  seen s = lines (frames s.world) ++ s.queue

  -- A message and what waits behind it make one frame.
  pub receive_frame :
      (p : String) (q : List String) (closed : Bool) (w : W)
      → ((on_receive conn (p ∷ q) closed w).queue ≡ [])
        × (frames (on_receive conn (p ∷ q) closed w).world ≡ frames w ++ cat p (joined q) ∷ [])
        × ((on_receive conn (p ∷ q) closed w).closed ≡ closed)
        × ((on_receive conn (p ∷ q) closed w).stopped ≡ false)
  unfolding on_receive
  receive_frame p q closed w =
      let w1 = (conn.next_writer w).1 in
      let w2 = (conn.write p w1).1 in
      let (left, w3) = flush conn q w2 in
      let flushed = flush-IsFlushed q w2 in
      rw
        (
          after_next_writer-ok p q closed (conn.next_writer w) (works.next_writer w),
          after_write-ok q closed (conn.write p w1) (works.write p w1),
          go_on-ok left closed (conn.close_writer w3) (works.close_writer w3),
        )
        (
          flushed.all,
          simp (
            works.close_writer_sends, flushed.same, flushed.added, works.write_frames,
            works.write_adds, works.next_writer_frames, works.next_writer_opens, nil-append,
          ),
          refl,
          refl,
        )
