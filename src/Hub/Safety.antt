-- ===== src/Hub/Safety.antt =====
-- Every state that the hub's loop reaches is sound, and it does not panic
-- (internal/delivery/websocket/hub.go).
use chatter_stack.Base.{
  subst, ◌∙◌, ℕ, String, ◌≡◌, refl, true, false, not, ◌&&◌, List, [], ◌∷◌, ◌++◌, arith, ◌==◌,
  if◌then◌else◌,
}
use chatter_stack.Base.Dict
use chatter_stack.Base.Dict.{Dict}
use chatter_stack.Hub.Sets.{mem, mem-insert, mem-erase}
use chatter_stack.Hub.{
  Client, Channel, Hub, Broadcast, Run, done, panicked, members, new_hub, update, add_client,
  forget, remove_client, send_to_room,
}
use chatter_stack.Hub.Index.{has_name, add_client-IsIndexed, forget-IsIndexed}
use chatter_stack.Hub.NoRepeat.{join_all-NoRepeat, leave_all-NoRepeat}
use chatter_stack.Hub.Delivery.{
  after_broadcast, IsDelivered, AreOpen, send_to_room_delivers, overflowing,
}
use chatter_stack.Hub.Loop.{
  drain, Event, register, unregister, taken, broadcast, handle, serve, IsSound, IsExpected,
}

AreOpen-of :
    (h : Hub) (cs : List ℕ)
    → ((c : ℕ) → mem c cs ≡ true → (h.channels c).closed ≡ false)
    → AreOpen h cs
unfolding mem
AreOpen-of h [] f = tt
AreOpen-of h (c ∷ cs) f = (f c (ground arith), AreOpen-of h cs (λ d e. f d (ground arith)))

-- `P` of the state after a run that did not panic.
abbrev pub After : (Hub → Type 0) → Run Hub → Type 0
After P (done h) = P h
After P panicked = Unit

module _ (client : ℕ → Client) where
  members-AreOpen : (h : Hub) (r : String) → IsSound client h → AreOpen h (members r h.rooms)
  members-AreOpen h r v =
      AreOpen-of h (members r h.rooms) (λ c e. v.unclosed c (ground (arith, v.indexed.by_room r c)))

  -- The same indices, and no channel closed.
  pub IsSound-same :
      (h h' : Hub)
      → IsSound client h
      → h'.clients ≡ h.clients
      → h'.rooms ≡ h.rooms
      → h'.users ≡ h.users
      → ((c : ℕ) → (h'.channels c).closed ≡ (h.channels c).closed)
      → IsSound client h'
  IsSound-same h h' v sc sr su same = record {
    indexed = record {
      by_room = λ r c. rw (sc, sr) (v.indexed.by_room r c);
      by_user = λ u c. rw (sc, su) (v.indexed.by_user u c);
    };
    single = λ r. rw sr (v.single r);
    unclosed = λ c e. same c ∙ v.unclosed c (rw (← sc) e);
  }

  pub add_client-IsSound :
      (h : Hub) (c : ℕ)
      → IsSound client h
      → (h.channels c).closed ≡ false
      → IsSound client (add_client client h c)
  unfolding add_client
  add_client-IsSound h c v e = record {
    indexed = add_client-IsIndexed client h c v.indexed;
    single = join_all-NoRepeat c (client c).rooms h.rooms v.single;
    unclosed = λ d k. ground (arith, v.unclosed d, mem-insert c d h.clients);
  }

  -- The hub without `c`, the channel of `c` closed.
  pub removed : Hub → ℕ → Hub
  unfolding update forget
  removed h c = record (forget client h c) {
    channels = update h.channels c (record { queue = (h.channels c).queue; closed = true });
  }

  pub remove_client_done :
      (h : Hub) (c : ℕ)
      → (h.channels c).closed ≡ false
      → remove_client client h c ≡ done (removed h c)
  unfolding remove_client removed
  remove_client_done h c e = rw e

  pub removed-IsSound : (h : Hub) (c : ℕ) → IsSound client h → IsSound client (removed h c)
  unfolding removed
  removed-IsSound h c v =
      let f = forget-IsIndexed client h c v.indexed in
      record {
        indexed = record { by_room = f.by_room; by_user = f.by_user };
        single = leave_all-NoRepeat c (client c).rooms h.rooms v.single;
        unclosed = λ d k. ground (arith, v.unclosed d, mem-erase c d h.clients);
      }

  pub drain-IsSound : (h : Hub) (c : ℕ) → IsSound client h → IsSound client (drain h c)
  unfolding drain
  drain-IsSound h c v = IsSound-same h (drain h c) v refl refl refl (λ d. ground arith)

  pub send_to_room-IsSound :
      (h : Hub) (msg : Broadcast)
      → IsSound client h
      → (h' : Hub) × (send_to_room h msg ≡ done h')
        × IsDelivered msg (members msg.room_id h.rooms) h h'
        × IsSound client h'
  send_to_room-IsSound h msg v =
      let (h', e, d) =
        send_to_room_delivers h msg (v.single msg.room_id) (members-AreOpen h msg.room_id v) in
      (h', e, d, IsSound-same h h' v d.clients d.rooms d.users (λ c. ground (arith, d.channels c)))

  -- In a sound hub an expected event is handled without a panic, and the hub is sound afterwards.
  pub handle-IsSound :
      (h : Hub) (e : Event)
      → IsSound client h
      → IsExpected client h e
      → (h' : Hub) × (handle client h e ≡ done h') × IsSound client h'
  unfolding handle
  handle-IsSound h (register c) v x = (add_client client h c, refl, add_client-IsSound h c v x)
  handle-IsSound h (unregister c) v x =
      (removed h c, remove_client_done h c (v.unclosed c x), removed-IsSound h c v)
  handle-IsSound h (broadcast msg) v x =
      let (h', e, d, v') = send_to_room-IsSound h msg v in (h', e, v')
  handle-IsSound h (taken c) v x = (drain h c, refl, drain-IsSound h c v)

  -- The callers keep to the protocol all the way.
  abbrev pub AreExpected : Hub → List Event → Type 0
  AreExpected h [] = Unit
  AreExpected h (e ∷ es) =
      IsExpected client h e × After (λ h'. AreExpected h' es) (handle client h e)

  -- From a sound hub (indices that agree with the set of clients, each client once, no closed
  -- channel in them) the loop handles any list of events that keep to the protocol without a
  -- panic, and the hub is sound at the end. The protocol: a client that registers has an open
  -- channel, a client that unregisters is connected.
  pub serve-IsSound :
      (h : Hub) (es : List Event)
      → IsSound client h
      → AreExpected h es
      → (h' : Hub) × (serve client h es ≡ done h') × IsSound client h'
  unfolding serve
  serve-IsSound h [] v x = (h, refl, v)
  serve-IsSound h (e ∷ es) v x =
      let (h', done_e, v') = handle-IsSound h e v x.0 in
      let (h'', rest, v'') =
        serve-IsSound h' es v' (subst (After (λ g. AreExpected g es)) done_e x.1) in
      (h'', rw done_e rest, v'')

  pub new_hub-IsSound : (channels : ℕ → Channel) → IsSound client (new_hub channels)
  unfolding mem Dict.get
  new_hub-IsSound channels = record {
    indexed = record { by_room = λ r c. refl; by_user = λ u c. refl };
    single = λ r. tt;
    unclosed = λ c e. absurd (ground arith);
  }

  -- In a sound hub a broadcast to a room does not panic. It puts the payload behind what waits
  -- for each connected client that has the room among its rooms, is not excluded and has space
  -- left, changes no other channel, and asks to unregister the clients that have no space left.
  pub broadcast_reaches_members :
      (h : Hub) (msg : Broadcast)
      → IsSound client h
      → (h' : Hub) × (handle client h (broadcast msg) ≡ done h')
        × ((c : ℕ)
            → h'.channels c
              ≡ after_broadcast msg
                  (mem c h.clients && has_name msg.room_id (client c).rooms)
                  c
                  (h.channels c))
        × (h'.spawned ≡ h.spawned ++ overflowing msg h (members msg.room_id h.rooms))
  unfolding handle
  broadcast_reaches_members h msg v =
      let (h', e, d, v') = send_to_room-IsSound h msg v in
      (h', e, λ c. rw (← v.indexed.by_room msg.room_id c) (d.channels c), d.spawned)

  -- Unregistering a connected client of a sound hub does not panic: it takes the client out of
  -- the set of clients and closes its channel, and changes no other channel.
  pub unregister_disconnects :
      (h : Hub) (c : ℕ)
      → IsSound client h
      → mem c h.clients ≡ true
      → (h' : Hub) × (handle client h (unregister c) ≡ done h')
        × ((d : ℕ) → mem d h'.clients ≡ (not (c == d) && mem d h.clients))
        × ((d : ℕ)
            → h'.channels d ≡ (
                if c == d
                then record { queue = (h.channels c).queue; closed = true }
                else h.channels d))
  unfolding handle removed
  unregister_disconnects h c v e = (
    removed h c,
    remove_client_done h c (v.unclosed c e),
    λ d. mem-erase c d h.clients,
    λ d. ground arith,
  )
