-- ===== src/Relay/Tests.antt =====
-- A message on its way from a client to the room, and an event for a user.
use chatter_stack.Base.{
  has_none, ℕ, String, ◌≡◌, refl, sym, ap, ◌∙◌, Bool, true, false, ◌&&◌, none, some, List, [], ◌∷◌,
  ◌++◌, arith, inl, inr, eqb, eq_iff, Bool-cases, ◌==◌, if◌then◌else◌, trim_space, is_space,
}
use chatter_stack.Errors.{other, no_rows}
use chatter_stack.Exec.{Result, ok, err}
use chatter_stack.Models.{Message, Attachment}
use chatter_stack.Messages
use chatter_stack.Messages.{
  Service, RoomEvent, changed, deleted, no_attachments, publish_room_event,
}
use chatter_stack.Hub
use chatter_stack.Hub.{Broadcast, Channel, Hub, done, new_hub, add_client}
use chatter_stack.Hub.Loop
use chatter_stack.Hub.Loop.{handle, IsSound}
use chatter_stack.Hub.Safety.{new_hub-IsSound, add_client-IsSound}
use chatter_stack.Http.Failures.{contains}
use chatter_stack.Client.{Client, new_client, SendMessagePayload, handle_send_message}
use chatter_stack.Relay.{Codec, broadcast, to_user, relay}
use chatter_stack.Relay.Channels.{user_event_arrives}
use chatter_stack.Relay.Twice.{Reads, Decodes, sent_twice}
use chatter_stack.Relay.Arrival.{IsListening, event_of, sent_arrives}

abbrev note : String → Message
note content = record {
  id = "m1";
  room_id = "r1";
  sender_id = "u1";
  content = content;
  attachments = [];
  status = "SENT";
  created_at = 1;
  updated_at = 1;
}

-- The messages that the JSON of this test can write: those that differ in their content only.
is_note : Message → Bool
is_note m =
    eqb m.id "m1"
    && (eqb m.room_id "r1"
        && (eqb m.sender_id "u1"
            && (eqb m.status "SENT"
                && ((m.created_at == 1) && ((m.updated_at == 1) && no_attachments m.attachments)))))

empty_of : (list : List Attachment) → no_attachments list ≡ true → list ≡ []
empty_of [] h = refl
empty_of (a ∷ list) h = cc

note_of : (m : Message) → is_note m ≡ true → m ≡ note m.content
unfolding is_note
note_of m h =
    let e1 : m.id ≡ "m1" = ground (arith, eq_iff m.id "m1") in
    let e2 : m.room_id ≡ "r1" = ground (arith, eq_iff m.room_id "r1") in
    let e3 : m.sender_id ≡ "u1" = ground (arith, eq_iff m.sender_id "u1") in
    let e4 : m.status ≡ "SENT" = ground (arith, eq_iff m.status "SENT") in
    let e5 : m.created_at ≡ 1 = ground arith in
    let e6 : m.updated_at ≡ 1 = ground arith in
    let e7 = empty_of m.attachments (ground arith) in
    ap (λ x. record m { id = x }) e1
    ∙ ap (λ x. record m { id = "m1"; room_id = x }) e2
    ∙ ap (λ x. record m { id = "m1"; room_id = "r1"; sender_id = x }) e3
    ∙ ap (λ x. record m { id = "m1"; room_id = "r1"; sender_id = "u1"; status = x }) e4
    ∙ ap
        (λ x. record (note m.content) {
          created_at = x;
          updated_at = m.updated_at;
          attachments = m.attachments;
        })
        e5
    ∙ ap (λ x. record (note m.content) { updated_at = x; attachments = m.attachments }) e6
    ∙ ap (λ x. record (note m.content) { attachments = x }) e7

marshal : RoomEvent → Result String
unfolding is_note
marshal (changed m) = if is_note m then ok m.content else err (other "json")
marshal (deleted id room) = err (other "json")

abbrev pub codec : Codec
codec = record {
  envelope = λ bytes. some "";
  deleted = λ bytes. none;
  message = λ bytes. some (note bytes);
  encode_deleted = λ id room. ok "deleted";
  encode_message = λ p. ok p.content;
}

abbrev messages : Service ℕ
messages = record {
  repo = record {
    create = λ m w. (ok (note m.content), w);
    list_by_room = λ room limit offset w. (ok [], w);
    list_around = λ room id before after w. (ok [], w);
    update_status = λ id status w. (ok tt, w);
    upsert_receipt = λ receipt w. (ok tt, w);
    search = λ user room query limit w. (ok [], w);
    get_by_id = λ id w. (err no_rows, w);
    update_content = λ id content w. (err no_rows, w);
    delete = λ id w. (ok tt, w);
  };
  pub_sub = some (λ channel payload w. (ok tt, w));
  marshal = marshal;
  now = λ w. 0;
}

abbrev client : Client ℕ
client =
    new_client 1 "u1" ("r1" ∷ []) (some (Messages.send messages)) "ann" (λ p. ok p.content)
      (λ event p. ok event)

made_from : (m : Message) (bytes : String) → marshal (changed m) ≡ ok bytes → m ≡ note bytes
unfolding marshal
made_from m bytes h = elim (Bool-cases (is_note m)) [
  | inr e ↦ absurd (ground (arith, rw e at h))
  | inl e ↦
      let written : ◌≡◌ {A = Result String} (ok m.content) (ok bytes) = rw e at h in
      let same : m.content ≡ bytes = ground arith in note_of m e ∙ ap note same
]

codec-Reads : Reads codec messages
codec-Reads = record {
  envelope = λ m bytes h. refl;
  message = λ m bytes h. ap some (sym (made_from m bytes h));
}

codec-Decodes : Decodes codec messages client
codec-Decodes = record { reads = codec-Reads; encode = refl }

abbrev payload : SendMessagePayload
payload = record { room_id = " r1"; content = "hi "; attachments = [] }

abbrev hi : Broadcast
hi = record { room_id = "r1"; payload = "hi"; exclude = none }

sent_twice_example :
    (bytes : String) × (w1 : ℕ) × (◌≡◌ {A = Result (Unit {0}) × ℕ} (ok tt, w1) (ok tt, 5))
    × (relay codec "rooms:r1:messages" bytes ≡ broadcast hi)
unfolding handle_send_message Messages.send marshal trim_space is_space publish_room_event contains
sent_twice_example =
    sent_twice codec messages client codec-Decodes (λ channel payload w. (ok tt, w)) payload hi 5 5
      refl refl refl refl refl

abbrev people : ℕ → Hub.Client
people c = record { user_id = "u1"; rooms = "r1" ∷ [] }

abbrev fresh : ℕ → Channel
fresh c = record { queue = []; closed = false }

-- Client 1 is connected.
abbrev one_client : Hub
one_client = add_client people (new_hub fresh) 1

one_client-IsSound : IsSound people one_client
one_client-IsSound = add_client-IsSound people (new_hub fresh) 1 (new_hub-IsSound people fresh) refl

sent_arrives_example :
    (bytes : String) × (w1 : ℕ) × (◌≡◌ {A = Result (Unit {0}) × ℕ} (ok tt, w1) (ok tt, 5))
    × (relay codec "rooms:r1:messages" bytes ≡ broadcast (event_of (note "hi") "hi"))
    × ((h' : Hub) × (handle people one_client (Loop.broadcast (event_of (note "hi") "hi"))
          ≡ done h')
        × ((c : ℕ)
            → IsListening people one_client "r1" c
            → (h'.channels c).queue ≡ (one_client.channels c).queue ++ "hi" ∷ []))
unfolding Messages.send marshal trim_space is_space publish_room_event contains
sent_arrives_example =
    sent_arrives codec messages codec-Reads people (λ channel payload w. (ok tt, w))
      (record { room_id = "r1"; sender_id = "u1"; content = "hi"; attachments = [] }) (note "hi")
      "hi" one_client 5 5 refl refl (refl, refl) refl one_client-IsSound

user_event_arrives_at_work : relay codec "users:u1:events" "{}" ≡ to_user "u1" "{}"
unfolding has_none
user_event_arrives_at_work = user_event_arrives codec "u1" "{}" refl
