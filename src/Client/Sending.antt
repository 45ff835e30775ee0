-- ===== src/Client/Sending.antt =====
-- What a message that a client sends is broadcast as (internal/delivery/websocket/client.go).
use chatter_stack.Base.{
  String, ◌||◌, not, ◌≡◌, ap, Option, none, some, arith, inl, inr, eqb, trim_space, Bool-cases,
  true,
}
use chatter_stack.Exec.{Result, ok, err, Exec, Result-cases}
use chatter_stack.Models.{Message}
use chatter_stack.Messages.{SendMessageInput}
use chatter_stack.Hub.{Broadcast}
use chatter_stack.Client.{
  Client, SendMessagePayload, received, to_room, relay_sent, send_through, handle_send_message,
  is_member, to_domain_attachments,
}

-- A broadcast goes to the room that it is made for.
pub to_room_room :
    (room_id : String) (r : Result String) (b : Broadcast)
    → to_room room_id none r ≡ some b
    → room_id ≡ b.room_id
unfolding to_room
to_room_room room_id (ok bytes) b h = ground arith
to_room_room room_id (err e) b h = cc

module _ {W : Type 0} (c : Client W) where
  abbrev pub input_of : SendMessagePayload → SendMessageInput
  input_of payload = record {
    room_id = trim_space payload.room_id;
    sender_id = c.user_id;
    content = trim_space payload.content;
    attachments = to_domain_attachments payload.attachments;
  }

  -- A broadcast is that of a message which the sender has returned.
  pub broadcast_is_sent :
      (send : SendMessageInput → Exec W Message) (payload : SendMessagePayload) (b : Broadcast)
      (w w' : W)
      → c.sender ≡ some send
      → handle_send_message c payload w ≡ (some b, w')
      → (m : Message) × (send (input_of payload) w ≡ (ok m, w'))
        × (to_room m.room_id none (c.encode_message (received m)) ≡ some b)
  unfolding handle_send_message send_through relay_sent
  broadcast_is_sent send payload b w w' there h =
      let room_id = trim_space payload.room_id in
      elim (Bool-cases (eqb room_id "" || not (is_member c.rooms room_id))) [
        | inl e ↦ absurd (ground (arith, rw e at h))
        | inr e ↦ elim (Result-cases (send (input_of payload) w).0) [
          | inr (x, f) ↦ absurd (ground (arith, rw (e, there, f) at h))
          | inl (m, f) ↦
              let after = (send (input_of payload) w).1 in
              let last : ◌≡◌ {A = Option Broadcast × W}
                  (to_room m.room_id none (c.encode_message (received m)), after) (some b, w') =
                rw (e, there, f) at h in
              let same : after ≡ w' = ap (λ (x : Option Broadcast × W). x.1) last in
              (m, ground arith, ap (λ (x : Option Broadcast × W). x.0) last)
        ]
      ]

  -- Only a client of the room sends a message to it.
  pub sender_is_member :
      (payload : SendMessagePayload) (b : Broadcast) (w w' : W)
      → handle_send_message c payload w ≡ (some b, w')
      → is_member c.rooms (trim_space payload.room_id) ≡ true
  unfolding handle_send_message
  sender_is_member payload b w w' h =
      let room_id = trim_space payload.room_id in
      elim (Bool-cases (eqb room_id "" || not (is_member c.rooms room_id))) [
        | inl e ↦ absurd (ground (arith, rw e at h))
        | inr e ↦ ground arith
      ]
