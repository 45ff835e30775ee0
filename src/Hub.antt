-- ===== src/Hub.antt =====
-- internal/delivery/websocket/hub.go: the hub's indices of connected clients, and what it sends to
-- them. A `*Client` is a number; the fields that no code changes after `NewClient` are given by the
-- function `client`. A panic of the Go runtime ends the process and is the result `panicked`.
pub mod Sets
pub mod Index
pub mod Delivery
pub mod NoRepeat
pub mod Loop
pub mod Safety
pub mod Closing
pub mod Crashes
pub mod Shutdown
pub mod Senders
pub mod Tests
use chatter_stack.Base.{
  ℕ, ◌≡◌, refl, String, Bool, true, false, Option, none, some, List, [], ◌∷◌, ◌++◌, ltb, ◌==◌,
  length, if◌then◌else◌,
}
use chatter_stack.Base.Dict
use chatter_stack.Base.Dict.{Dict}
use Sets.{insert, erase, mem}

-- The fields of `Client` that the hub reads.
pub record Client : Type 0 where
  pub user_id : String
  pub rooms : List String

-- The channel `Send` of a client: what waits in its buffer, oldest first, and whether it is closed.
pub record Channel : Type 0 where
  pub queue : List String
  pub closed : Bool

-- The capacity that `NewClient` gives to the channel.
abbrev pub send_buffer : ℕ
send_buffer = 256

-- `channels` is the part of the heap that the hub writes to, and `spawned` the clients for which a
-- `go h.Unregister(client)` has been started.
pub record Hub : Type 0 where
  pub clients : List ℕ
  pub rooms : Dict (List ℕ)
  pub users : Dict (List ℕ)
  pub channels : ℕ → Channel
  pub spawned : List ℕ

pub record Broadcast : Type 0 where
  pub room_id : String
  pub payload : String
  pub exclude : Option ℕ

pub data Run {ℓ} (A : Type ℓ) : Type ℓ where
  done : A → Run A
  panicked : Run A

infixl 5 ◌>>=◌
abbrev pub ◌>>=◌ {ℓ κ} : {A : Type ℓ} {B : Type κ} → Run A → (A → Run B) → Run B
done a >>= f = f a
panicked >>= f = panicked

pub bind-done {ℓ κ} :
    {A : Type ℓ} {B : Type κ} (m : Run A) (f : A → Run B) {b : B}
    → (m >>= f) ≡ done b
    → (a : A) × (m ≡ done a) × (f a ≡ done b)
bind-done (done a) f e = (a, refl, e)
bind-done panicked f e = cc

pub bind-panicked {ℓ κ} :
    {A : Type ℓ} {B : Type κ} (m : Run A) (f : A → Run B)
    → ((a : A) → m ≡ done a → f a ≡ panicked)
    → (m >>= f) ≡ panicked
bind-panicked (done a) f h = h a refl
bind-panicked panicked f h = refl

-- A map's set under a key that may be absent.
abbrev pub or_empty : Option (List ℕ) → List ℕ
or_empty none = []
or_empty (some cs) = cs

abbrev pub members : String → Dict (List ℕ) → List ℕ
members k m = or_empty (Dict.get k m)

unfoldable pub update : (ℕ → Channel) → ℕ → Channel → ℕ → Channel
update f c v d = if d == c then v else f d

-- NewHub
abbrev pub new_hub : (ℕ → Channel) → Hub
new_hub channels = record {
  clients = [];
  rooms = [];
  users = [];
  channels = channels;
  spawned = [];
}

-- close(client.Send)
pub close : Hub → ℕ → Run Hub
unfolding update
close h c =
    if (h.channels c).closed
    then panicked
    else done (record h {
      channels = update h.channels c (record { queue = (h.channels c).queue; closed = true });
    })

-- The outcome of `select { case client.Send <- data: default: }`.
pub data Sent : Type 0 where
  queued full on_closed : Sent

pub offer : Hub → ℕ → Sent
offer h c =
    if (h.channels c).closed
    then on_closed
    else if ltb (length (h.channels c).queue) send_buffer
    then queued
    else full

push : Hub → ℕ → String → Hub
unfolding update
push h c bytes = record h {
  channels =
      update h.channels c (record { queue = (h.channels c).queue ++ bytes ∷ []; closed = false });
}

-- `if m[k] == nil { m[k] = make(…) }; m[k][c] = struct{}{}`
join : ℕ → String → Dict (List ℕ) → Dict (List ℕ)
join c k m = Dict.put k (insert c (members k m)) m

-- `if cs, ok := m[k]; ok { delete(cs, c); if len(cs) == 0 { delete(m, k) } }`
put_or_drop : String → List ℕ → Dict (List ℕ) → Dict (List ℕ)
put_or_drop k [] m = Dict.remove k m
put_or_drop k (c ∷ cs) m = Dict.put k (c ∷ cs) m

leave_set : ℕ → String → Option (List ℕ) → Dict (List ℕ) → Dict (List ℕ)
unfolding put_or_drop
leave_set c k none m = m
leave_set c k (some cs) m = put_or_drop k (erase c cs) m

leave : ℕ → String → Dict (List ℕ) → Dict (List ℕ)
unfolding leave_set
leave c k m = leave_set c k (Dict.get k m) m

pub join_all : ℕ → List String → Dict (List ℕ) → Dict (List ℕ)
unfolding join
join_all c [] m = m
join_all c (r ∷ rs) m = join_all c rs (join c r m)

pub leave_all : ℕ → List String → Dict (List ℕ) → Dict (List ℕ)
unfolding leave
leave_all c [] m = m
leave_all c (r ∷ rs) m = leave_all c rs (leave c r m)

pub close_all : Hub → List ℕ → Run Hub
unfolding close
close_all h [] = done h
close_all h (c ∷ cs) = close h c >>= λ h'. close_all h' cs

-- One round of the loop of `sendToRoom`.
pub deliver_sent : Hub → ℕ → String → Sent → Run Hub
unfolding push
deliver_sent h c bytes queued = done (push h c bytes)
deliver_sent h c bytes full = done (record h { spawned = h.spawned ++ c ∷ [] })
deliver_sent h c bytes on_closed = panicked

unfoldable pub is_excluded : Option ℕ → ℕ → Bool
is_excluded none c = false
is_excluded (some d) c = c == d

pub deliver : Broadcast → Hub → ℕ → Run Hub
unfolding deliver_sent is_excluded offer
deliver msg h c =
    if is_excluded msg.exclude c then done h else deliver_sent h c msg.payload (offer h c)

pub deliver_all : Broadcast → Hub → List ℕ → Run Hub
unfolding deliver
deliver_all msg h [] = done h
deliver_all msg h (c ∷ cs) = deliver msg h c >>= λ h'. deliver_all msg h' cs

pub send_to_room : Hub → Broadcast → Run Hub
unfolding deliver_all
send_to_room h msg = deliver_all msg h (members msg.room_id h.rooms)

-- One round of the loop of `SendToUser`; a client that is full is closed and leaves the user's set.
drop_user_client : Hub → String → ℕ → Hub
drop_user_client h user c = record h {
  users = Dict.put user (erase c (members user h.users)) h.users;
}

pub post_sent : Hub → String → ℕ → String → Sent → Run Hub
unfolding push close drop_user_client
post_sent h user c bytes queued = done (push h c bytes)
post_sent h user c bytes full = close h c >>= λ h'. done (drop_user_client h' user c)
post_sent h user c bytes on_closed = panicked

pub post_all : String → String → Hub → List ℕ → Run Hub
unfolding post_sent offer
post_all user bytes h [] = done h
post_all user bytes h (c ∷ cs) =
    post_sent h user c bytes (offer h c) >>= λ h'. post_all user bytes h' cs

pub send_to_user : Hub → String → String → Run Hub
unfolding post_all
send_to_user h user bytes = post_all user bytes h (members user h.users)

pub shutdown : Hub → Run Hub
unfolding close_all
shutdown h = close_all h h.clients >>= λ h'. done (record h' { clients = []; rooms = [] })

module _ (client : ℕ → Client) where
  pub add_client : Hub → ℕ → Hub
  unfolding join join_all
  add_client h c = record h {
    clients = insert c h.clients;
    users = join c (client c).user_id h.users;
    rooms = join_all c (client c).rooms h.rooms;
  }

  pub forget : Hub → ℕ → Hub
  unfolding leave leave_all
  forget h c = record h {
    clients = erase c h.clients;
    users = leave c (client c).user_id h.users;
    rooms = leave_all c (client c).rooms h.rooms;
  }

  pub remove_client : Hub → ℕ → Run Hub
  unfolding forget close
  remove_client h c = close (forget h c) c
