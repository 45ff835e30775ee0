-- ===== src/Postgres/MessageRepo.antt =====
-- internal/repository/postgres/message_repo.go
use chatter_stack.Base.{
  ℕ, ℤ, pos, leb_ℤ, String, Bool, Option, none, some, not, ◌&&◌, ◌||◌, List, [], ◌∷◌, ◌++◌, eqb,
  ltb, ◌==◌, if◌then◌else◌,
}
use chatter_stack.Errors.{Error, no_rows, other}
use chatter_stack.Exec.{Result, ok, Exec, continue, pure, refuse, ◌>>=◌, ◌>>◌}
use chatter_stack.Models.{Message, MessageReceipt, status_sent}
use chatter_stack.Messages.{MessageRepository}
use chatter_stack.Postgres.{
  Tables, Db, Env, in_micros, select, update_rows, any_row, order_by, limit_rows, offset_rows,
  first_row, exec, query,
}
use chatter_stack.Postgres.RoomRepo.{is_user_in}

-- A message as its row has it. The table has no column for attachments.
abbrev pub message_row : (String → String) → Message → Message
message_row uuid m = record m {
  id = uuid m.id;
  room_id = uuid m.room_id;
  sender_id = uuid m.sender_id;
  attachments = [];
  created_at = in_micros m.created_at;
  updated_at = in_micros m.updated_at;
}

unfoldable pub insert_message : Message → Tables → Tables
insert_message m t = record t { messages = t.messages ++ m ∷ [] }

abbrev pub has_id : String → Message → Bool
has_id id m = eqb m.id id

abbrev pub same_receipt : MessageReceipt → MessageReceipt → Bool
same_receipt x y = eqb y.message_id x.message_id && eqb y.user_id x.user_id

abbrev pub micros_of : Option ℕ → Option ℕ
micros_of none = none
micros_of (some time) = some (in_micros time)

-- A receipt as its row has it.
abbrev pub receipt_row : (String → String) → MessageReceipt → MessageReceipt
receipt_row uuid x = record x {
  id = uuid x.id;
  message_id = uuid x.message_id;
  user_id = uuid x.user_id;
  seen_at = micros_of x.seen_at;
}

-- ON CONFLICT (message_id, user_id) DO UPDATE SET status = EXCLUDED.status, …
unfoldable pub upsert_row : MessageReceipt → Tables → Tables
unfolding any_row update_rows
upsert_row x t = record t {
  receipts =
      if any_row (same_receipt x) t.receipts
      then update_rows (same_receipt x) (λ y. record y { status = x.status; seen_at = x.seen_at })
          t.receipts
      else t.receipts ++ x ∷ [];
}

unfoldable pub set_status : String → String → Tables → Tables
unfolding update_rows
set_status id status t = record t {
  messages = update_rows (has_id id) (λ m. record m { status = status }) t.messages;
}

unfoldable pub set_content : String → String → ℕ → Tables → Tables
unfolding update_rows
set_content id content now t = record t {
  messages =
      update_rows (has_id id) (λ m. record m { content = content; updated_at = in_micros now })
        t.messages;
}

-- DELETE FROM messages, with the receipts that refer to the message by ON DELETE CASCADE.
unfoldable pub delete_message : String → Tables → Tables
unfolding select
delete_message id t = record t {
  messages = select (λ m. not (eqb m.id id)) t.messages;
  receipts = select (λ x. not (eqb x.message_id id)) t.receipts;
}

abbrev pub newer : Message → Message → Bool
newer m n = ltb n.created_at m.created_at

abbrev pub older : Message → Message → Bool
older m n = ltb m.created_at n.created_at

unfoldable pub is_in_room : String → Message → Bool
is_in_room room_id m = eqb m.room_id room_id

-- The loop that swaps the ends.
unfoldable pub reverse : {A : Type 0} → List A → List A
reverse [] = []
reverse (x ∷ rows) = reverse rows ++ x ∷ []

module _ (env : Env) where
  -- What `Create` fills in.
  unfoldable pub completed : Message → Db → Message
  completed m db =
      let created = if m.created_at == 0 then env.now db else m.created_at in
      record m {
        id = if eqb m.id "" then env.new_id db else m.id;
        created_at = created;
        updated_at = if m.updated_at == 0 then created else m.updated_at;
        status = if eqb m.status "" then status_sent else m.status;
      }

  unfoldable pub insert_completed : Message → Exec Db Message
  unfolding insert_message in_micros
  insert_completed msg = do
    exec env (msg.id ∷ msg.room_id ∷ msg.sender_id ∷ msg.content ∷ msg.status ∷ [])
        (insert_message (message_row env.uuid msg))
    pure msg

  unfoldable pub create : Message → Exec Db Message
  unfolding completed insert_completed
  create m db = insert_completed (completed m db) db

  -- OFFSET, then LIMIT
  abbrev page : ℤ → ℤ → List Message → Result (List Message)
  page limit offset rows =
      (continue (offset_rows offset rows) (λ left w. (limit_rows limit left, w)) tt).0

  unfoldable pub list_by_room : String → ℤ → ℤ → Exec Db (List Message)
  unfolding select is_in_room order_by limit_rows offset_rows
  list_by_room room_id limit offset = query env (room_id ∷ []) λ t.
      page limit offset
        (order_by newer (env.scan_messages (select (is_in_room (env.uuid room_id)) t.messages)))

  unfoldable pub get_by_id : String → Exec Db Message
  unfolding select
  get_by_id id = query env (id ∷ []) (λ t. first_row (select (has_id (env.uuid id)) t.messages))

  earlier : String → Message → ℤ → Exec Db (List Message)
  unfolding select is_in_room order_by limit_rows
  earlier room_id target before = query env (room_id ∷ []) λ t. limit_rows before (
      order_by newer (
        env.scan_messages
          (select (λ m. is_in_room (env.uuid room_id) m && older m target) t.messages)))

  later : String → Message → ℤ → Exec Db (List Message)
  unfolding select is_in_room order_by limit_rows
  later room_id target after = query env (room_id ∷ []) λ t. limit_rows after (
      order_by older (
        env.scan_messages
          (select (λ m. is_in_room (env.uuid room_id) m && newer m target) t.messages)))

  -- `if n > 0 { … }`: a query that is not made gives no rows.
  if_positive : ℤ → Exec Db (List Message) → Exec Db (List Message)
  if_positive n m db = if leb_ℤ n (pos 0) then (ok [], db) else m db

  abbrev out_of_range : Error
  out_of_range = other "runtime error: makeslice: cap out of range"

  -- `make([]models.Message, 0, n)` panics if there is no such space. The panic ends the request like an
  -- error: gin answers it with 500, but without a text.
  unfoldable pub list_around : String → String → ℤ → ℤ → Exec Db (List Message)
  unfolding get_by_id earlier later if_positive reverse
  list_around room_id message_id before after = do
    target ← get_by_id message_id
    refuse (not (eqb target.room_id room_id)) no_rows
    refuse (not (env.reserve before)) out_of_range
    before_msgs ← if_positive before (earlier room_id target before)
    refuse (not (env.reserve after)) out_of_range
    after_msgs ← if_positive after (later room_id target after)
    pure (reverse before_msgs ++ (target ∷ after_msgs))

  unfoldable pub update_status : String → String → Exec Db (Unit {0})
  unfolding set_status
  update_status id status = exec env (status ∷ id ∷ []) (set_status (env.uuid id) status)

  unfoldable pub complete_receipt : MessageReceipt → Exec Db MessageReceipt
  complete_receipt x db = (ok (record x { id = if eqb x.id "" then env.new_id db else x.id }), db)

  unfoldable pub upsert_receipt : MessageReceipt → Exec Db (Unit {0})
  unfolding complete_receipt upsert_row
  upsert_receipt x = do
    receipt ← complete_receipt x
    exec env (receipt.id ∷ receipt.message_id ∷ receipt.user_id ∷ receipt.status ∷ [])
        (upsert_row (receipt_row env.uuid receipt))

  unfoldable pub search : String → String → String → ℤ → Exec Db (List Message)
  unfolding select order_by limit_rows is_user_in
  search user room_id text limit = query env (user ∷ room_id ∷ text ∷ []) λ t. limit_rows limit (
      order_by newer (
        env.scan_messages (
          select
            (λ m.
              is_user_in (env.uuid user) m.room_id t.members
              && ((eqb room_id "" || eqb m.room_id room_id) && env.matches m.content text))
            t.messages)))

  unfoldable pub update_content : String → String → Exec Db Message
  unfolding set_content select
  update_content id content db =
      (do
        exec env (id ∷ content ∷ []) (set_content (env.uuid id) content (env.now db))
        λ after. (first_row (select (has_id (env.uuid id)) after.tables.messages), after))
        db

  unfoldable pub delete : String → Exec Db (Unit {0})
  unfolding delete_message
  delete id = exec env (id ∷ []) (delete_message (env.uuid id))

  abbrev pub repository : MessageRepository Db
  repository = record {
    create = create;
    list_by_room = list_by_room;
    list_around = list_around;
    update_status = update_status;
    upsert_receipt = upsert_receipt;
    search = search;
    get_by_id = get_by_id;
    update_content = update_content;
    delete = delete;
  }
