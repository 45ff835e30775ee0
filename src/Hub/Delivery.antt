-- ===== src/Hub/Delivery.antt =====
-- What a broadcast does to the clients of a room, `sendToRoom` of
-- internal/delivery/websocket/hub.go.
use chatter_stack.Base.{
  ℕ, ◌≡◌, refl, sym, ◌∙◌, Bool, false, not, ◌&&◌, List, [], ◌∷◌, ◌++◌, ltb, arith, ◌==◌, length,
  if◌then◌else◌, Bool-cases, inl, inr, All,
}
use mathlib.Core.List.{append_assoc, append-nil}
use chatter_stack.Hub.Sets.{mem, HasNoRepeat}
use chatter_stack.Hub.{
  Hub, Channel, Broadcast, done, send_buffer, members, push, is_excluded, deliver, deliver_all,
  send_to_room,
}

-- The channel of client `c` after a broadcast, if the client is or is not in the room: the payload
-- is put behind what waits there, unless the client is excluded or has no room left.
abbrev pub after_broadcast : Broadcast → Bool → ℕ → Channel → Channel
after_broadcast msg target c ch =
    if target && not (is_excluded msg.exclude c) && ltb (length ch.queue) send_buffer
    then record { queue = ch.queue ++ msg.payload ∷ []; closed = ch.closed }
    else ch

-- The clients of a list whose buffer is full and that are not excluded, in order.
abbrev pub overflowing : Broadcast → Hub → List ℕ → List ℕ
overflowing msg h [] = []
overflowing msg h (c ∷ cs) =
    if not (is_excluded msg.exclude c) && not (ltb (length (h.channels c).queue) send_buffer)
    then c ∷ overflowing msg h cs
    else overflowing msg h cs

-- `h'` is what a broadcast to the clients `cs` makes of `h`.
pub record IsDelivered (msg : Broadcast) (cs : List ℕ) (h h' : Hub) : Type 0 where
  pub clients : h'.clients ≡ h.clients
  pub rooms : h'.rooms ≡ h.rooms
  pub users : h'.users ≡ h.users
  pub spawned : h'.spawned ≡ h.spawned ++ overflowing msg h cs
  pub channels : (c : ℕ) → h'.channels c ≡ after_broadcast msg (mem c cs) c (h.channels c)

abbrev pub AreOpen : Hub → List ℕ → Type 0
AreOpen h cs = All (λ c. (h.channels c).closed ≡ false) cs

pub one_done : (msg : Broadcast) (h : Hub) (c : ℕ) → Hub
one_done msg h c =
    if is_excluded msg.exclude c
    then h
    else if ltb (length (h.channels c).queue) send_buffer
    then push h c msg.payload
    else record h { spawned = h.spawned ++ c ∷ [] }

deliver_one :
    (msg : Broadcast) (h : Hub) (c : ℕ)
    → (h.channels c).closed ≡ false
    → deliver msg h c ≡ done (one_done msg h c)
unfolding deliver one_done
deliver_one msg h c e = ground arith

one_channels :
    (msg : Broadcast) (h : Hub) (c d : ℕ)
    → (h.channels c).closed ≡ false
    → (one_done msg h c).channels d ≡ after_broadcast msg (c == d) d (h.channels d)
unfolding one_done push
one_channels msg h c d e = ground arith

pub one_closed :
    (msg : Broadcast) (h : Hub) (c : ℕ) (ds : List ℕ)
    → (h.channels c).closed ≡ false
    → AreOpen h ds
    → AreOpen (one_done msg h c) ds
one_closed msg h c [] e k = tt
one_closed msg h c (d ∷ ds) e k =
    (ground (arith, one_channels msg h c d e, k.0), one_closed msg h c ds e k.1)

one_overflowing :
    (msg : Broadcast) (h : Hub) (c : ℕ) (ds : List ℕ)
    → (h.channels c).closed ≡ false
    → mem c ds ≡ false
    → overflowing msg (one_done msg h c) ds ≡ overflowing msg h ds
unfolding mem
one_overflowing msg h c [] e k = refl
one_overflowing msg h c (d ∷ ds) e k =
    ground (arith, one_channels msg h c d e, one_overflowing msg h c ds e)

one_indices :
    (msg : Broadcast) (h : Hub) (c : ℕ)
    → ((one_done msg h c).clients ≡ h.clients)
      × ((one_done msg h c).rooms ≡ h.rooms)
      × ((one_done msg h c).users ≡ h.users)
unfolding one_done push
one_indices msg h c = ground arith

is_overflowing : Broadcast → Hub → ℕ → Bool
is_overflowing msg h c =
    not (is_excluded msg.exclude c) && not (ltb (length (h.channels c).queue) send_buffer)

one_asks :
    (msg : Broadcast) (h : Hub) (c : ℕ)
    → (one_done msg h c).spawned
      ≡ (if is_overflowing msg h c then h.spawned ++ c ∷ [] else h.spawned)
unfolding one_done push is_overflowing
one_asks msg h c = ground arith

one_spawned :
    (msg : Broadcast) (h : Hub) (c : ℕ) (ds : List ℕ)
    → (h.channels c).closed ≡ false
    → mem c ds ≡ false
    → (one_done msg h c).spawned ++ overflowing msg (one_done msg h c) ds
      ≡ h.spawned ++ overflowing msg h (c ∷ ds)
unfolding is_overflowing
one_spawned msg h c ds e k =
    rw (one_overflowing msg h c ds e k, one_asks msg h c)
      (elim (Bool-cases (is_overflowing msg h c)) [
        | inl full ↦ rw full (append_assoc h.spawned (c ∷ []) (overflowing msg h ds))
        | inr room ↦ rw room
      ])

deliver_all_lem :
    (msg : Broadcast) (h : Hub) (cs : List ℕ)
    → HasNoRepeat cs
    → AreOpen h cs
    → (h' : Hub) × (deliver_all msg h cs ≡ done h') × IsDelivered msg cs h h'
unfolding deliver_all mem
deliver_all_lem msg h [] n o = (
  h,
  refl,
  record {
    clients = refl;
    rooms = refl;
    users = refl;
    spawned = sym (append-nil h.spawned);
    channels = λ c. refl;
  },
)
deliver_all_lem msg h (c ∷ cs) n o =
    let (h', e, p) =
      deliver_all_lem msg (one_done msg h c) cs n.1 (one_closed msg h c cs o.0 o.1) in
    let (sc, sr, su) = one_indices msg h c in
    (
      h',
      rw (deliver_one msg h c o.0) e,
      record {
        clients = p.clients ∙ sc;
        rooms = p.rooms ∙ sr;
        users = p.users ∙ su;
        spawned = p.spawned ∙ one_spawned msg h c cs o.0 n.0;
        channels = λ d. ground (arith, p.channels d, one_channels msg h c d o.0, n.0);
      },
    )

-- A broadcast to a room whose clients all have open channels does not panic: it puts the payload
-- behind what waits for each of them but the excluded one, leaves the channel of every other client
-- alone, asks to unregister those whose buffers are full, and changes no index.
pub send_to_room_delivers :
    (h : Hub) (msg : Broadcast)
    → HasNoRepeat (members msg.room_id h.rooms)
    → AreOpen h (members msg.room_id h.rooms)
    → (h' : Hub) × (send_to_room h msg ≡ done h')
      × IsDelivered msg (members msg.room_id h.rooms) h h'
unfolding send_to_room
send_to_room_delivers h msg n o = deliver_all_lem msg h (members msg.room_id h.rooms) n o
