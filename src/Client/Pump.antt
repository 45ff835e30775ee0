-- ===== src/Client/Pump.antt =====
-- The loop `ReadPump` of internal/delivery/websocket/client.go. The decoding of JSON and the limiter of
-- golang.org/x/time/rate are parameters; the messages are those that are read before reading fails.
pub mod Inside
pub mod Tests
use chatter_stack.Base.{String, Bool, ◌||◌, Option, none, some, List, [], ◌∷◌, eqb, if◌then◌else◌}
use chatter_stack.Hub.{Broadcast}
use chatter_stack.Client.{Client, SendMessagePayload, handle_send_message, handle_typing_event}

-- `envelope` gives the event and the bytes of its data, `typing` the room of a typing event.
pub record Decoder : Type 0 where
  pub envelope : String → Option (String × String)
  pub send_message : String → Option SendMessagePayload
  pub typing : String → Option String

-- Allow, at the time that the world has.
abbrev pub Limiter : Type 0 → Type 0 → Type 0
Limiter W L = L → W → Bool × L

put_in_front : Option Broadcast → List Broadcast → List Broadcast
put_in_front none list = list
put_in_front (some b) list = b ∷ list

module _ {W L : Type 0} (decoder : Decoder) (allow : Limiter W L) (c : Client W) where
  on_send : Option SendMessagePayload → W → Option Broadcast × W
  on_send none w = (none, w)
  on_send (some payload) w = handle_send_message c payload w

  on_typing : String → Option String → Option Broadcast
  on_typing event none = none
  on_typing event (some room_id) = handle_typing_event c event room_id

  -- An event without data has an empty room.
  typing_payload : String → Option String
  typing_payload data' = if eqb data' "" then some "" else decoder.typing data'

  on_event : Option (String × String) → W → Option Broadcast × W
  unfolding on_send on_typing typing_payload
  on_event none w = (none, w)
  on_event (some (event, data')) w =
      if eqb event "send_message"
      then on_send (decoder.send_message data') w
      else if eqb event "typing_start" || eqb event "typing_stop"
      then (on_typing event (typing_payload data'), w)
      else (none, w)

  -- A message that the limiter does not let pass is dropped.
  on_message : Bool → String → W → Option Broadcast × W
  unfolding on_event
  on_message allowed message w =
      if allowed then on_event (decoder.envelope message) w else (none, w)

  -- The broadcasts that are queued in the hub, in their order.
  unfoldable pub read_pump : List String → L → W → List Broadcast
  unfolding on_message put_in_front
  read_pump [] limiter w = []
  read_pump (message ∷ messages) limiter w =
      let (allowed, limiter') = allow limiter w in
      let (queued, w') = on_message allowed message w in
      put_in_front queued (read_pump messages limiter' w')
