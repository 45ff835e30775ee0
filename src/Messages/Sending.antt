-- ===== src/Messages/Sending.antt =====
-- What becomes of a message that is sent, in internal/domain/messages/service_impl.go.
use chatter_stack.Base.{String, some, sym, ap, ◌∙◌, ◌≡◌, false, ◌&&◌, arith, inl, inr, Bool-cases}
use chatter_stack.Exec.{Result, ok, Result-cases, map_result}
use chatter_stack.Models.{Message}
use chatter_stack.Messages.{
  Service, SendMessageInput, changed, is_blank, no_attachments, new_message, publish_room_event,
  send, Publisher, publish_marshaled, room_channel,
}

-- A message with a room, a sender, and content or attachments.
abbrev pub IsComplete : SendMessageInput → Type 0
IsComplete payload =
    (is_blank payload.room_id ≡ false)
    × (is_blank payload.sender_id ≡ false)
    × ((is_blank payload.content && no_attachments payload.attachments) ≡ false)

module _ {W : Type 0} (s : Service W) where
  -- `Send` of a complete message that the repository stores fails if the room cannot be told of
  -- it, with the error of that, although the message stays stored. Else its result is the
  -- message.
  pub send_result :
      (payload : SendMessageInput) (m : Message) (w w1 : W)
      → IsComplete payload
      → s.repo.create (new_message payload) w ≡ (ok m, w1)
      → send s payload w ≡ (
        map_result (λ u. m) (publish_room_event s s.pub_sub m.room_id (changed m) w1).0,
        (publish_room_event s s.pub_sub m.room_id (changed m) w1).1,
      )
  unfolding send
  send_result payload m w w1 (r, u, c) stored =
      rw (r, u, c, stored)
        (elim (Result-cases (publish_room_event s s.pub_sub m.room_id (changed m) w1).0) [
          | inl (x, e) ↦ rw e
          | inr (x, e) ↦ rw e
        ])

  send-IsComplete :
      (payload : SendMessageInput) (m : Message) (w w' : W)
      → send s payload w ≡ (ok m, w')
      → IsComplete payload
  unfolding send
  send-IsComplete payload m w w' h = elim (Bool-cases (is_blank payload.room_id)) [
    | inl e ↦ absurd (ground (arith, rw e at h))
    | inr e ↦ elim (Bool-cases (is_blank payload.sender_id)) [
      | inl f ↦ absurd (ground (arith, rw (e, f) at h))
      | inr f ↦ elim (Bool-cases (is_blank payload.content && no_attachments payload.attachments)) [
        | inl g ↦ absurd (ground (arith, rw (e, f, g) at h))
        | inr g ↦ (e, f, g)
      ]
    ]
  ]

  -- `Send` succeeds only for a complete message that the repository has stored, and returns what
  -- it has stored.
  pub sent_is_stored :
      (payload : SendMessageInput) (m : Message) (w w' : W)
      → send s payload w ≡ (ok m, w')
      → IsComplete payload × ((s.repo.create (new_message payload) w).0 ≡ ok m)
  unfolding send
  sent_is_stored payload m w w' h =
      let k = send-IsComplete payload m w w' h in
      (
        k,
        elim (Result-cases (s.repo.create (new_message payload) w).0) [
          | inl (x, e) ↦
              let w1 = (s.repo.create (new_message payload) w).1 in
              elim (Result-cases (publish_room_event s s.pub_sub x.room_id (changed x) w1).0) [
                | inl (u, f) ↦ ground (arith, rw (k.0, k.1, k.2, e, f) at h)
                | inr (u, f) ↦ absurd (ground (arith, rw (k.0, k.1, k.2, e, f) at h))
              ]
          | inr (x, e) ↦ absurd (ground (arith, rw (k.0, k.1, k.2, e) at h))
        ],
      )

  -- A message that `Send` returns has been marshaled and published on the channel of its room.
  pub send_publishes :
      (publish : Publisher W) (payload : SendMessageInput) (m : Message) (w w' : W)
      → s.pub_sub ≡ some publish
      → send s payload w ≡ (ok m, w')
      → (bytes : String) × (w1 : W) × (s.marshal (changed m) ≡ ok bytes)
        × (publish (room_channel m.room_id) bytes w1 ≡ (ok tt, w'))
  unfolding publish_room_event publish_marshaled
  send_publishes publish payload m w w' there h =
      let (complete, stored) = sent_is_stored payload m w w' h in
      let w1 = (s.repo.create (new_message payload) w).1 in
      let stored' : s.repo.create (new_message payload) w ≡ (ok m, w1) = ap (λ x. (x, w1)) stored in
      let told = sym (send_result payload m w w1 complete stored') ∙ h in
      elim (Result-cases (s.marshal (changed m))) [
        | inr (e, f) ↦ absurd (ground (arith, rw (there, f) at told))
        | inl (bytes, f) ↦ elim (Result-cases (publish (room_channel m.room_id) bytes w1).0) [
          | inr (e, g) ↦ absurd (ground (arith, rw (there, f, g) at told))
          | inl (u, g) ↦
              let after = (publish (room_channel m.room_id) bytes w1).1 in
              let last : ◌≡◌ {A = Result Message × W} (ok m, after) (ok m, w') =
                rw (there, f, g) at told in
              let same : after ≡ w' = ap (λ (x : Result Message × W). x.1) last in
              (bytes, w1, f, ground arith)
        ]
      ]
