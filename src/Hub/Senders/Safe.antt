-- ===== src/Hub/Senders/Safe.antt =====
-- Any interleaving of the goroutines around the hub, in which no client is slow.
use chatter_stack.Base.{
  ℕ, ◌≡◌, refl, ap, subst, Bool, true, false, some, List, [], ◌∷◌, Bool-cases, inl, inr,
}
use chatter_stack.Hub.Sets.{mem}
use chatter_stack.Hub.{Client, Channel, Hub, Broadcast, done}
use chatter_stack.Hub.Loop.{Event, handle, drain, IsSound, IsExpected}
use chatter_stack.Hub.Safety.{IsSound-same, drain-IsSound, handle-IsSound, new_hub-IsSound}
use chatter_stack.Hub.Senders.{
  Stage, entering, reading, finished, sends, State, Step, received, relayed, slow, took, told,
  cancelled, Runs, here, later, begin,
}
use chatter_stack.Hub.Senders.Blocked.{ended_for_good}
use chatter_stack.Hub.Senders.Told.{ClosesNothing, send_to_user-IsLike}
use chatter_stack.Hub.Senders.Placed.{
  IsPlaced, IsPlaced-same, took_mem, took_closed, some-inj, IsSafe, broadcast_keeps, after_send,
}

-- In `ReadPump`.
pub is_reading : Stage → Bool
is_reading (entering list) = false
is_reading (reading list) = true
is_reading finished = false

module _ (client : ℕ → Client) where
  -- No slow client is closed: no unregistration that `sendToRoom` has started is received, and no
  -- call of `SendToUser` closes a channel.
  abbrev pub IsPlain : {s t : State} → Step client s t → Type 0
  IsPlain (received c r n e) = Unit
  IsPlain (relayed b r e) = Unit
  IsPlain (slow c before after r n e) = ⊥
  IsPlain (took c) = Unit
  IsPlain {s} (told {h = h} user bytes e) = ClosesNothing s.hub h
  IsPlain (cancelled r e) = Unit

  abbrev pub ArePlain : {s t : State} → Runs client s t → Type 0
  ArePlain here = Unit
  ArePlain (later step run) = IsPlain step × ArePlain run

  Step-IsSafe :
      {s t : State} (step : Step client s t)
      → IsPlain step
      → t.running ≡ true
      → IsSafe client s
      → IsSafe client t
  Step-IsSafe {s} (received {h = h} {e = e} c r n k) p q v =
      after_send client s h e c (s.stages c) v refl n k
  Step-IsSafe {s} (relayed {h = h} b r k) p q v =
      let (sound, kept) = broadcast_keeps client s.hub h b v.sound k in
      record {
        sound = sound;
        placed = λ d. IsPlaced-same s.hub h d (s.stages d) (kept d).0 (kept d).1 (v.placed d);
      }
  Step-IsSafe (slow c before after r n e) p q v = absurd p
  Step-IsSafe {s} (took c) p q v = record {
    sound = drain-IsSound client s.hub c v.sound;
    placed = λ d.
        IsPlaced-same s.hub (drain s.hub c) d (s.stages d) (took_mem s.hub c d)
          (took_closed s.hub c d) (v.placed d);
  }
  Step-IsSafe {s} (told {h = h} user bytes e) p q v =
      let like = send_to_user-IsLike s.hub h user bytes e p in
      record {
        sound = IsSound-same client s.hub h v.sound like.clients like.rooms like.users like.closed;
        placed = λ d.
            IsPlaced-same s.hub h d (s.stages d) (ap (mem d) like.clients) (like.closed d)
              (v.placed d);
      }
  Step-IsSafe (cancelled r e) p q v = cc

  Runs-IsSafe :
      {s t : State} (run : Runs client s t)
      → ArePlain run
      → t.running ≡ true
      → IsSafe client s
      → IsSafe client t
  Runs-IsSafe here p q v = v
  Runs-IsSafe {s} {t} (later {t = u} step run) p q v = elim (Bool-cases u.running) [
    | inl r ↦ Runs-IsSafe run p.1 q (Step-IsSafe step p.0 r v)
    | inr r ↦ let over : t.running ≡ false = ended_for_good client run r in cc
  ]

  begin-IsSafe :
      (channels : ℕ → Channel) (lists : ℕ → List Broadcast)
      → ((c : ℕ) → (channels c).closed ≡ false)
      → IsSafe client (begin channels lists)
  unfolding begin mem
  begin-IsSafe channels lists o = record {
    sound = new_hub-IsSound client channels;
    placed = λ c. (refl, o c);
  }

  placed-mem :
      (h : Hub) (c : ℕ) (stage : Stage) → IsPlaced h c stage → mem c h.clients ≡ is_reading stage
  unfolding is_reading
  placed-mem h c (entering list) p = p.0
  placed-mem h c (reading list) p = p
  placed-mem h c finished p = p

  send-IsExpected :
      (h : Hub) (c : ℕ) (stage : Stage) (e : Event)
      → IsPlaced h c stage
      → sends c stage ≡ some e
      → IsExpected client h e
  unfolding sends
  send-IsExpected h c (entering list) e p n = subst (IsExpected client h) (some-inj n) p.1
  send-IsExpected h c (reading []) e p n = subst (IsExpected client h) (some-inj n) p
  send-IsExpected h c (reading (b ∷ list)) e p n = subst (IsExpected client h) (some-inj n) tt
  send-IsExpected h c finished e p n = cc

  -- If the clients start with open channels, then in any interleaving of their handlers, the
  -- relay, the pumps and the loop of the hub, in which no slow client is closed (no
  -- unregistration that `sendToRoom` has started is received, and no `SendToUser` closes a
  -- channel), as long as `Run` has not returned the hub is sound, its clients are those whose
  -- handler is in `ReadPump`, and the loop receives what a handler waits to send without a panic.
  pub Runs-IsSound :
      (channels : ℕ → Channel) (lists : ℕ → List Broadcast) {t : State}
      → ((c : ℕ) → (channels c).closed ≡ false)
      → (run : Runs client (begin channels lists) t) → ArePlain run
      → t.running ≡ true
      → IsSound client t.hub
        × ((c : ℕ) → mem c t.hub.clients ≡ is_reading (t.stages c))
        × ((c : ℕ) (e : Event)
            → sends c (t.stages c) ≡ some e
            → (h : Hub) × (handle client t.hub e ≡ done h))
  Runs-IsSound channels lists {t} o run p q =
      let v = Runs-IsSafe run p q (begin-IsSafe channels lists o) in
      (
        v.sound,
        λ c. placed-mem t.hub c (t.stages c) (v.placed c),
        λ c e n.
            let (h, k, sound) =
              handle-IsSound client t.hub e v.sound
                (send-IsExpected t.hub c (t.stages c) e (v.placed c) n) in
            (h, k),
      )
