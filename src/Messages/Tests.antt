-- ===== src/Messages/Tests.antt =====
-- The message service at a concrete repository, a list of messages and one of receipts.
use chatter_stack.Base.{
  ℕ, String, ◌≡◌, ◌≢◌, refl, none, some, List, [], ◌∷◌, arith, eqb, pos, trim_space, is_space, ◌≤◌,
  ◌+◌, ◌-ℤ◌, ◌*ℤ◌, wrap, half, if◌then◌else◌, ne_of_eqb,
}
use chatter_stack.Errors.{no_rows, message, MessageError, edit_not_allowed, other}
use chatter_stack.Exec.{Result, ok, err}
use chatter_stack.Models.{Message, MessageReceipt, status_delivered, status_read}
use chatter_stack.Messages.{
  MessageRepository, Service, SendMessageInput, changed, deleted, send, edit, delete,
  mark_delivered, mark_read, search, page_offset, around, new_message, publish_room_event,
}
use chatter_stack.Messages.Owner.{edit_by_sender, delete_by_sender, others_refused}
use chatter_stack.Messages.Sending.{IsComplete, send_result, sent_is_stored}
use chatter_stack.Messages.Paging.{page_offset-eq, around_fills, search_limits, searched}
use chatter_stack.Messages.Receipts.{IsMarked, mark_delivered_stores, mark_read_stores}

record Store : Type 0 where
  messages : List Message
  receipts : List MessageReceipt

abbrev find : String → List Message → Result Message
find id [] = err no_rows
find id (m ∷ ms) = if eqb m.id id then ok m else find id ms

abbrev without : String → List Message → List Message
without id [] = []
without id (m ∷ ms) = if eqb m.id id then without id ms else m ∷ without id ms

abbrev replace : (Message → Message) → String → List Message → List Message
replace f id [] = []
replace f id (m ∷ ms) = (if eqb m.id id then f m else m) ∷ replace f id ms

abbrev in_memory : MessageRepository Store
in_memory = record {
  create = λ m w.
      (ok (record m { id = "m1" }), record w { messages = record m { id = "m1" } ∷ w.messages });
  list_by_room = λ room limit offset w. (ok w.messages, w);
  list_around = λ room id before after w. (ok w.messages, w);
  update_status = λ id status w.
      (ok tt, record w { messages = replace (λ m. record m { status = status }) id w.messages });
  upsert_receipt = λ r w. (ok tt, record w { receipts = r ∷ w.receipts });
  search = λ user room query limit w. (ok w.messages, w);
  get_by_id = λ id w. (find id w.messages, w);
  update_content = λ id content w. (
    find id (replace (λ m. record m { content = content }) id w.messages),
    record w { messages = replace (λ m. record m { content = content }) id w.messages },
  );
  delete = λ id w. (ok tt, record w { messages = without id w.messages });
}

abbrev service : Service Store
service = record {
  repo = in_memory;
  pub_sub = some (λ channel payload w. (ok tt, w));
  marshal = λ e. ok "{}";
  now = λ w. 7;
}

-- The same with a publisher that is down.
abbrev unheard : Service Store
unheard = record service { pub_sub = some (λ channel payload w. (err (other "down"), w)) }

message_code : Unit {0}
unfolding send edit delete mark_delivered mark_read search page_offset around publish_room_event
    is_space trim_space wrap half ◌-ℤ◌ ◌*ℤ◌
message_code = tt

abbrev hello : Message
hello = record {
  id = "m1";
  room_id = "r1";
  sender_id = "ann";
  content = "hello";
  attachments = [];
  status = "SENT";
  created_at = 0;
  updated_at = 0;
}

abbrev payload : SendMessageInput
payload = record { room_id = "r1"; sender_id = "ann"; content = " hello "; attachments = [] }

abbrev empty : Store
empty = record { messages = []; receipts = [] }

abbrev one : Store
one = record { messages = hello ∷ []; receipts = [] }

send_result_at_work : send unheard payload empty ≡ (err (other "down"), one)
unfolding message_code
send_result_at_work = send_result unheard payload hello empty one (refl, refl, refl) refl

sent_is_stored_at_work :
    IsComplete payload × ((service.repo.create (new_message payload) empty).0 ≡ ok hello)
unfolding message_code
sent_is_stored_at_work = sent_is_stored service payload hello empty one refl

abbrev edited : Message
edited = record hello { content = "bye" }

edit_by_sender_example :
    (trim_space " bye" ≢ "")
    × (old : Message) × ((service.repo.get_by_id "m1" one).0 ≡ ok old)
    × (old.sender_id ≡ "ann")
    × (w1 : Store) × (service.repo.update_content "m1" "bye" one ≡ (ok edited, w1))
    × (publish_room_event service service.pub_sub "r1" (changed edited) w1
        ≡ (ok tt, record one { messages = edited ∷ [] }))
unfolding message_code
edit_by_sender_example =
    edit_by_sender service "m1" "ann " " bye" one (record one { messages = edited ∷ [] }) edited
      refl

delete_by_sender_at_work :
    ((service.repo.get_by_id "m1" one).0 ≡ ok hello)
    × (hello.sender_id ≡ "ann")
    × (w1 : Store) × (service.repo.delete "m1" one ≡ (ok tt, w1))
    × (publish_room_event service service.pub_sub "r1" (deleted "m1" "r1") w1 ≡ (ok tt, empty))
unfolding message_code
delete_by_sender_at_work = delete_by_sender service "m1" "ann" one empty hello refl

others_refused_at_work :
    (edit service "m1" "bob" "bye" one ≡ (err (message edit_not_allowed), one))
    × (delete service "m1" "bob" one ≡ (err (message MessageError.delete_not_allowed), one))
unfolding message_code
others_refused_at_work =
    others_refused service "m1" "bob" "bye" hello one refl refl refl refl
      (ne_of_eqb "ann" "bob" refl)

page_offset-eq_at_work : page_offset (pos 3) (pos 50) ≡ pos 100
unfolding message_code
page_offset-eq_at_work = page_offset-eq 2 50 (omega arith) (omega arith)

around_fills_example :
    (before : ℕ) × (after : ℕ) × (around (pos 50) ≡ (pos before, pos after))
    × (before + 1 + after ≡ 50)
    × (after ≤ before)
    × (before ≤ after + 1)
around_fills_example = around_fills 50 (omega arith) (omega arith)

search_limits_at_work :
    (search service " ann" "" "hel" (pos 500) one
      ≡ service.repo.search "ann" "" "hel" (pos 100) one)
    × (1 ≤ searched (pos 500))
    × (searched (pos 500) ≤ 100)
unfolding message_code
search_limits_at_work = search_limits service " ann" "" "hel" (pos 500) one refl refl

abbrev delivered : Store
delivered = (mark_delivered service "m1" "bob" one).1

mark_delivered_stores_at_work : IsMarked service "m1" "bob" status_delivered none one delivered
unfolding message_code
mark_delivered_stores_at_work = mark_delivered_stores service "m1" "bob" one delivered refl

abbrev read : Store
read = (mark_read service "m1" "bob" delivered).1

mark_read_stores_at_work : IsMarked service "m1" "bob" status_read (some 7) delivered read
unfolding message_code
mark_read_stores_at_work = mark_read_stores service "m1" "bob" delivered read refl
