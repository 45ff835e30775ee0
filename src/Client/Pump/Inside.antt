-- ===== src/Client/Pump/Inside.antt =====
-- Where the broadcasts of a client of internal/delivery/websocket/client.go can go.
use chatter_stack.Base.{
  String, ◌≡◌, refl, sym, ap, ◌∙◌, Bool, true, false, ◌||◌, Option, none, some, List, [], ◌∷◌,
  arith, inl, inr, eqb, All, Bool-cases,
}
use chatter_stack.Exec.{ok, Exec}
use chatter_stack.Models.{Message}
use chatter_stack.Messages.{SendMessageInput}
use chatter_stack.Hub.{Broadcast}
use chatter_stack.Client.{Client, SendMessagePayload, received, is_member, handle_send_message}
use chatter_stack.Client.Membership.{typing_stays_inside}
use chatter_stack.Client.Sending.{input_of, to_room_room, broadcast_is_sent, sender_is_member}
use chatter_stack.Client.Pump.{
  Decoder, Limiter, put_in_front, on_send, on_typing, typing_payload, on_event, on_message,
  read_pump,
}

module _ {W L : Type 0} (decoder : Decoder) (allow : Limiter W L) (c : Client W)
    (send : SendMessageInput → Exec W Message) (sends : c.sender ≡ some send)
    (placed : (input : SendMessageInput) (m : Message) (w w' : W)
      → send input w ≡ (ok m, w')
      → m.room_id ≡ input.room_id) where
  on_send-inside :
      (o : Option SendMessagePayload) (b : Broadcast) (w : W)
      → (on_send decoder allow c o w).0 ≡ some b
      → is_member c.rooms b.room_id ≡ true
  unfolding on_send
  on_send-inside none b w h = cc
  on_send-inside (some payload) b w h =
      let w' = (handle_send_message c payload w).1 in
      let both = ap (λ x. (x, w')) h in
      let (m, sent, event) = broadcast_is_sent c send payload b w w' sends both in
      let at =
        sym (placed (input_of c payload) m w w' sent)
        ∙ to_room_room m.room_id (c.encode_message (received m)) b event in
      ap (is_member c.rooms) (sym at) ∙ sender_is_member c payload b w w' both

  on_typing-inside :
      (event : String) (o : Option String) (b : Broadcast)
      → on_typing decoder allow c event o ≡ some b
      → is_member c.rooms b.room_id ≡ true
  unfolding on_typing
  on_typing-inside event none b h = cc
  on_typing-inside event (some room_id) b h = (typing_stays_inside c event room_id b h).0

  on_event-inside :
      (o : Option (String × String)) (b : Broadcast) (w : W)
      → (on_event decoder allow c o w).0 ≡ some b
      → is_member c.rooms b.room_id ≡ true
  unfolding on_event
  on_event-inside none b w h = cc
  on_event-inside (some (event, data')) b w h = elim (Bool-cases (eqb event "send_message")) [
    | inl e ↦ on_send-inside (decoder.send_message data') b w (rw e at h)
    | inr e ↦ elim (Bool-cases (eqb event "typing_start" || eqb event "typing_stop")) [
      | inl f ↦ on_typing-inside event (typing_payload decoder allow c data') b (rw (e, f) at h)
      | inr f ↦ absurd (ground (arith, rw (e, f) at h))
    ]
  ]

  on_message-inside :
      (allowed : Bool) (message : String) (b : Broadcast) (w : W)
      → (on_message decoder allow c allowed message w).0 ≡ some b
      → is_member c.rooms b.room_id ≡ true
  unfolding on_message
  on_message-inside true message b w h = on_event-inside (decoder.envelope message) b w h
  on_message-inside false message b w h = cc

  put_in_front-All :
      (P : Broadcast → Type 0) (o : Option Broadcast) (list : List Broadcast)
      → ((b : Broadcast) → o ≡ some b → P b)
      → All P list
      → All P (put_in_front o list)
  unfolding put_in_front
  put_in_front-All P none list h k = k
  put_in_front-All P (some b) list h k = (h b refl, k)

  -- Whatever a client sends, and whatever its limiter lets pass, the broadcasts that `ReadPump`
  -- makes of it go to rooms of that client only, if the message sender stores messages in the
  -- room that it is asked for.
  pub broadcasts_stay_inside :
      (messages : List String) (limiter : L) (w : W)
      → All (λ b. is_member c.rooms b.room_id ≡ true) (read_pump decoder allow c messages limiter w)
  unfolding read_pump
  broadcasts_stay_inside [] limiter w = tt
  broadcasts_stay_inside (message ∷ messages) limiter w =
      let (allowed, limiter') = allow limiter w in
      let (queued, w') = on_message decoder allow c allowed message w in
      put_in_front-All (λ b. is_member c.rooms b.room_id ≡ true) queued
        (read_pump decoder allow c messages limiter' w')
        (λ b e. on_message-inside allowed message b w e)
        (broadcasts_stay_inside messages limiter' w')
