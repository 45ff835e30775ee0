-- ===== src/Hub/Loop.antt =====
-- The event loop of internal/delivery/websocket/hub.go, and what its states have in common.
use chatter_stack.Base.{ℕ, String, ◌≡◌, true, false, List, [], ◌∷◌}
use chatter_stack.Hub.Sets.{mem}
use chatter_stack.Hub.{
  Client, Hub, Broadcast, Run, done, ◌>>=◌, update, add_client, remove_client, send_to_room,
}
use chatter_stack.Hub.Index.{IsIndexed}
use chatter_stack.Hub.NoRepeat.{RoomsHaveNoRepeat}

-- What `WritePump` takes from a channel: the oldest message.
abbrev rest_of : List String → List String
rest_of [] = []
rest_of (d ∷ ds) = ds

unfoldable pub drain : Hub → ℕ → Hub
unfolding update
drain h c = record h {
  channels =
      update h.channels c
        (record { queue = rest_of (h.channels c).queue; closed = (h.channels c).closed });
}

-- What happens to a hub: the three cases of the loop in `Run`, and a message taken by a client's
-- `WritePump`.
pub data Event : Type 0 where
  register unregister taken : ℕ → Event
  broadcast : Broadcast → Event

module _ (client : ℕ → Client) where
  unfoldable pub handle : Hub → Event → Run Hub
  handle h (register c) = done (add_client client h c)
  handle h (unregister c) = remove_client client h c
  handle h (broadcast msg) = send_to_room h msg
  handle h (taken c) = done (drain h c)

  unfoldable pub serve : Hub → List Event → Run Hub
  unfolding handle
  serve h [] = done h
  serve h (e ∷ es) = handle h e >>= λ h'. serve h' es

  -- The indices agree with the set of clients, hold a client once, and no client in them has a
  -- closed channel.
  pub record IsSound (h : Hub) : Type 0 where
    pub indexed : IsIndexed client h
    pub single : RoomsHaveNoRepeat h.rooms
    pub unclosed : (c : ℕ) → mem c h.clients ≡ true → (h.channels c).closed ≡ false

  -- What the callers keep to: a client that registers has an open channel, as one that `NewClient`
  -- has just made, and a client that unregisters is connected.
  abbrev pub IsExpected : Hub → Event → Type 0
  IsExpected h (register c) = (h.channels c).closed ≡ false
  IsExpected h (unregister c) = mem c h.clients ≡ true
  IsExpected h (broadcast msg) = Unit
  IsExpected h (taken c) = Unit
