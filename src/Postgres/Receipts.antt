-- ===== src/Postgres/Receipts.antt =====
-- What `MarkDelivered` and `MarkRead` of internal/domain/messages/service_impl.go leave in the tables
-- of internal/repository/postgres/message_repo.go.
use chatter_stack.Base.{
  ℕ, String, ◌≡◌, refl, ap, ◌∙◌, Bool, true, false, ◌&&◌, Option, none, some, List, [], ◌∷◌, ◌++◌,
  eqb, eq_refl, arith, inl, inr, Bool-cases, if◌then◌else◌,
}
use chatter_stack.Exec.{Result, ok}
use chatter_stack.Models.{Message, MessageReceipt, status_delivered, status_read}
use chatter_stack.Messages.{Service, RoomEvent, Publisher, mark_read, mark_delivered}
use chatter_stack.Messages.Receipts
use chatter_stack.Messages.Receipts.{IsMarked, mark_read_stores, mark_delivered_stores}
use chatter_stack.Postgres.{Tables, Db, Env, in_micros, any_row, update_rows}
use chatter_stack.Postgres.MessageRepo.{
  has_id, micros_of, receipt_row, same_receipt, upsert_row, set_status, upsert_receipt,
  update_status, complete_receipt, repository,
}
use chatter_stack.Postgres.Created.{exec-ok}

-- The status of the message with an id.
unfoldable pub status_of : String → List Message → Option String
status_of id [] = none
status_of id (m ∷ rows) =
    let rest = status_of id rows in if eqb m.id id then some m.status else rest

-- The status and the time of the receipt of a message for a user.
unfoldable pub receipt_of : String → String → List MessageReceipt → Option (String × Option ℕ)
receipt_of message user [] = none
receipt_of message user (x ∷ rows) =
    let rest = receipt_of message user rows in
    if eqb x.message_id message && eqb x.user_id user then some (x.status, x.seen_at) else rest

unfoldable pub now_is : String → Option String → Option String
now_is status none = none
now_is status (some old) = some status

status_of-set :
    (id status : String) (rows : List Message)
    → status_of id (update_rows (has_id id) (λ m. record m { status = status }) rows)
      ≡ now_is status (status_of id rows)
unfolding status_of now_is update_rows
status_of-set id status [] = refl
status_of-set id status (m ∷ rows) = elim (Bool-cases (eqb m.id id)) [
  | inl e ↦ rw (e, e) refl
  | inr e ↦ rw (e, e) (status_of-set id status rows)
]

module _ (x : MessageReceipt) where
  mine : MessageReceipt → Bool
  mine y = eqb y.message_id x.message_id && eqb y.user_id x.user_id

  receipt_of-append :
      (rows : List MessageReceipt)
      → any_row (same_receipt x) rows ≡ false
      → receipt_of x.message_id x.user_id (rows ++ x ∷ []) ≡ some (x.status, x.seen_at)
  unfolding receipt_of any_row
  receipt_of-append [] h = rw (eq_refl x.message_id, eq_refl x.user_id) refl
  receipt_of-append (y ∷ rows) h =
      elim (Bool-cases (eqb y.message_id x.message_id && eqb y.user_id x.user_id)) [
        | inl e ↦ absurd (ground (arith, rw e at h))
        | inr e ↦ rw e (receipt_of-append rows (rw e at h))
      ]

  receipt_of-update :
      (rows : List MessageReceipt)
      → any_row (same_receipt x) rows ≡ true
      → receipt_of x.message_id x.user_id (
          update_rows
            (same_receipt x)
            (λ y. record y { status = x.status; seen_at = x.seen_at })
            rows)
        ≡ some (x.status, x.seen_at)
  unfolding receipt_of any_row update_rows
  receipt_of-update [] h = cc
  receipt_of-update (y ∷ rows) h =
      elim (Bool-cases (eqb y.message_id x.message_id && eqb y.user_id x.user_id)) [
        | inl e ↦ rw (e, e) refl
        | inr e ↦ rw (e, e) (receipt_of-update rows (rw e at h))
      ]

  receipt_of-upsert :
      (t : Tables)
      → receipt_of x.message_id x.user_id (upsert_row x t).receipts ≡ some (x.status, x.seen_at)
  unfolding upsert_row
  receipt_of-upsert t = elim (Bool-cases (any_row (same_receipt x) t.receipts)) [
    | inl e ↦ rw e (receipt_of-update t.receipts e)
    | inr e ↦ rw e (receipt_of-append t.receipts e)
  ]

module _ (env : Env) (pub_sub : Option (Publisher Db)) (marshal : RoomEvent → Result String)
    (now : Db → ℕ) where
  abbrev pub service : Service Db
  service = record { repo = repository env; pub_sub = pub_sub; marshal = marshal; now = now }

  upsert_receipt-ok :
      (x : MessageReceipt) (db db' : Db)
      → upsert_receipt env x db ≡ (ok tt, db')
      → receipt_of (env.uuid x.message_id) (env.uuid x.user_id) db'.tables.receipts
          ≡ some (x.status, micros_of x.seen_at)
        × (db'.tables.messages ≡ db.tables.messages)
  unfolding upsert_receipt complete_receipt
  upsert_receipt-ok x db db' h =
      let y = record x { id = if eqb x.id "" then env.new_id db else x.id } in
      let params = y.id ∷ y.message_id ∷ y.user_id ∷ y.status ∷ [] in
      let row = receipt_row env.uuid y in
      let after = exec-ok env params (upsert_row row) db db' tt h in
      (
        ap (λ (t : Tables). receipt_of (env.uuid x.message_id) (env.uuid x.user_id) t.receipts)
              after
            ∙ receipt_of-upsert row db.tables,
        ap (λ (t : Tables). t.messages) after ∙ same_messages row db.tables,
      )
    where
      same_messages : (y : MessageReceipt) (t : Tables) → (upsert_row y t).messages ≡ t.messages
      same_messages y t = refl

  update_status-ok :
      (id status : String) (db db' : Db)
      → update_status env id status db ≡ (ok tt, db')
      → db'.tables ≡ set_status (env.uuid id) status db.tables
  unfolding update_status
  update_status-ok id status db db' h =
      exec-ok env (status ∷ id ∷ []) (set_status (env.uuid id) status) db db' tt h

  marked :
      (id user status : String) (seen : Option ℕ) (db db' : Db)
      → IsMarked service id user status seen db db'
      → (receipt_of (env.uuid id) (env.uuid user) db'.tables.receipts
          ≡ some (status, micros_of seen))
        × (status_of (env.uuid id) db'.tables.messages
            ≡ now_is status (status_of (env.uuid id) db.tables.messages))
  unfolding set_status
  marked id user status seen db db' m =
      let (receipt, same) =
        upsert_receipt-ok (Receipts.receipt_of id user status seen) db m.between m.receipt in
      let after = update_status-ok id status m.between db' m.message in
      (
        ap (λ (t : Tables). receipt_of (env.uuid id) (env.uuid user) t.receipts) after ∙ receipt,
        ap (λ (t : Tables). status_of (env.uuid id) t.messages) after
            ∙ status_of-set (env.uuid id) status m.between.tables.messages
            ∙ ap (λ rows. now_is status (status_of (env.uuid id) rows)) same,
      )

  -- Over the PostgreSQL repository, `MarkRead` and then `MarkDelivered` of the same message by
  -- the same user, if they succeed, take the message back: after the first its receipt is "READ"
  -- with the time of the call in microseconds, and the status of the message, if there is one, is
  -- "READ"; after the second both are "DELIVERED", and the time is gone.
  pub delivered_after_read :
      (id user : String) (db0 db db' : Db)
      → mark_read service id user db0 ≡ (ok tt, db)
      → mark_delivered service id user db ≡ (ok tt, db')
      → (receipt_of (env.uuid id) (env.uuid user) db.tables.receipts
          ≡ some (status_read, some (in_micros (now db0))))
        × (status_of (env.uuid id) db.tables.messages
            ≡ now_is status_read (status_of (env.uuid id) db0.tables.messages))
        × (receipt_of (env.uuid id) (env.uuid user) db'.tables.receipts
            ≡ some (status_delivered, none))
        × (status_of (env.uuid id) db'.tables.messages
            ≡ now_is status_delivered (status_of (env.uuid id) db.tables.messages))
  delivered_after_read id user db0 db db' h k =
      let (r, m) =
        marked id user status_read (some (now db0)) db0 db
          (mark_read_stores service id user db0 db h) in
      let (r', m') =
        marked id user status_delivered none db db'
          (mark_delivered_stores service id user db db' k) in
      (r, m, r', m')
