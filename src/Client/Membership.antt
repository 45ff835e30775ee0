-- ===== src/Client/Membership.antt =====
-- A client reaches only the rooms that it was let into (internal/delivery/websocket/client.go and
-- auth_helpers.go).
use chatter_stack.Base.{
  ℕ, String, ◌≡◌, ◌∙◌, refl, ap, sym, arith, true, false, ◌||◌, ◌&&◌, Option, none, some, List, [],
  ◌∷◌, eqb, if◌then◌else◌, Bool, eq_iff, Bool-cases, inl, inr, trim_space,
}
use mathlib.Core.Option.{some-injective}
use chatter_stack.Exec.{Result, ok, err, Exec}
use chatter_stack.Models.{RoomMember}
use chatter_stack.Hub.{Broadcast}
use chatter_stack.Client.{
  Client, SendMessagePayload, is_member, handle_send_message, handle_typing_event, to_room,
  typing_in, typing_room, authorizes, filter_authorized_rooms,
}

to_room-room_id :
    (room_id : String) (x : Option ℕ) (r : Result String) (b : Broadcast)
    → to_room room_id x r ≡ some b
    → (b.room_id ≡ room_id) × (b.exclude ≡ x)
unfolding to_room
to_room-room_id room_id x (ok bytes) b h =
    let e = some-injective _ _ h in (sym (ap (λ x. x.room_id) e), sym (ap (λ x. x.exclude) e))
to_room-room_id room_id x (err e) b h = cc

module _ {W : Type 0} (c : Client W) where
  typing_in-room :
      (event : String) (o : Option String) (b : Broadcast)
      → typing_in c event o ≡ some b
      → (is_member c.rooms b.room_id ≡ true) × (b.exclude ≡ some c.c)
  unfolding typing_in
  typing_in-room event none b h = cc
  typing_in-room event (some room_id) b h = elim (Bool-cases (is_member c.rooms room_id)) [
    | inl m ↦
        let notice = c.encode_typing event (record { username = c.username; room_id = room_id }) in
        let (same, excluded) = to_room-room_id room_id (some c.c) notice b (rw m at h) in
        (rw same m, excluded)
    | inr m ↦ absurd (ground (arith, rw m at h))
  ]

  -- A typing notice goes to a room of the client only, and not back to the client.
  pub typing_stays_inside :
      (event room_id : String) (b : Broadcast)
      → handle_typing_event c event room_id ≡ some b
      → (is_member c.rooms b.room_id ≡ true) × (b.exclude ≡ some c.c)
  unfolding handle_typing_event
  typing_stays_inside event room_id b h =
      typing_in-room event (typing_room c.rooms (trim_space room_id)) b h

  -- A client that does not belong to the room of its payload sends no message: nothing is done
  -- and nothing is broadcast.
  pub outsider_sends_nothing :
      (payload : SendMessagePayload) (w : W)
      → is_member c.rooms (trim_space payload.room_id) ≡ false
      → handle_send_message c payload w ≡ (none, w)
  unfolding handle_send_message
  outsider_sends_nothing payload w h = elim (Bool-cases (eqb (trim_space payload.room_id) "")) [
    | inl e ↦ rw e refl
    | inr e ↦ rw (e, h) refl
  ]

kept-is_member :
    (room_id r : String) (kept kept' : Bool) (rest room_ids : List String)
    → (room_id ≡ r → kept ≡ kept')
    → is_member rest r ≡ (is_member room_ids r && kept')
    → is_member (if kept then room_id ∷ rest else rest) r
      ≡ ((eqb room_id r || is_member room_ids r) && kept')
unfolding is_member
kept-is_member room_id r kept kept' rest room_ids same h = elim (Bool-cases (eqb room_id r)) [
  | inl e ↦ let f = same ((eq_iff room_id r).0 e) in ground arith
  | inr e ↦ ground arith
]

-- If what a list of members says does not depend on which lists were asked for before, the rooms that `FilterAuthorizedRooms` keeps are those of
-- its list whose members can be listed and have the user among them.
pub authorized_rooms :
    {W : Type 0} (list_members : String → Exec W (List RoomMember)) (user_id : String)
    (room_ids : List String) (w : W)
    → ((q r : String) (v : W) → (list_members r (list_members q v).1).0 ≡ (list_members r v).0)
    → (r : String)
    → (is_member (filter_authorized_rooms list_members user_id room_ids w).0 r
        ≡ (is_member room_ids r && authorizes user_id (list_members r w).0))
unfolding filter_authorized_rooms is_member
authorized_rooms list_members user_id [] w k r = refl
authorized_rooms list_members user_id (room_id ∷ room_ids) w k r =
    let w1 = (list_members room_id w).1 in
    let rest = (filter_authorized_rooms list_members user_id room_ids w1).0 in
    kept-is_member room_id r (authorizes user_id (list_members room_id w).0)
      (authorizes user_id (list_members r w).0) rest room_ids
      (λ same. ap (λ x. authorizes user_id (list_members x w).0) same)
      (authorized_rooms list_members user_id room_ids w1 k r
        ∙ ap (λ x. is_member room_ids r && authorizes user_id x) (k room_id r w))
