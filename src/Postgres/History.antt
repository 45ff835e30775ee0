-- ===== src/Postgres/History.antt =====
-- What `Create` of internal/repository/postgres/message_repo.go stores, and what `ListByRoom` reads.
use chatter_stack.Base.{
  ℕ, zero, suc, pos, ◌≤◌, String, ◌≡◌, ◌≢◌, refl, sym, ap, ◌∙◌, subst, Bool, true, Option, none,
  some, List, [], ◌∷◌, ◌++◌, eq_iff, eq_refl, eqb-false, arith, inl, inr, All, length, Bool-cases,
}
use chatter_stack.Errors.{Error}
use chatter_stack.Exec.{Result, ok, pure, >>=-ok}
use chatter_stack.Models.{Message}
use chatter_stack.Postgres.{
  Tables, Db, Env, select, insert_row, order_by, take, drop, limit_rows, offset_rows, first_row,
  exec, query, got, in_micros,
}
use chatter_stack.Postgres.MessageRepo.{
  newer, is_in_room, has_id, message_row, insert_message, completed, insert_completed, create,
  get_by_id, list_by_room,
}
use chatter_stack.Postgres.Created.{exec-ok}

-- Each message is at least as new as those after it.
abbrev pub IsNewestFirst : List Message → Type 0
IsNewestFirst [] = Unit
IsNewestFirst (m ∷ ms) = All (λ n. n.created_at ≤ m.created_at) ms × IsNewestFirst ms

-- Rows are read as they were selected: a test that all of them pass is passed by all that are read.
pub record IsScan (scan : List Message → List Message) : Type 0 where
  pub keeps :
      (test : Message → Bool) (rows : List Message)
      → All (λ m. test m ≡ true) rows
      → All (λ m. test m ≡ true) (scan rows)

module _ {ℓ} {A : Type 0} (P : A → Type ℓ) where
  insert_row-All :
      (before : A → A → Bool) (x : A) (rows : List A)
      → P x
      → All P rows
      → All P (insert_row before x rows)
  unfolding insert_row
  insert_row-All before x [] h k = (h, tt)
  insert_row-All before x (y ∷ rows) h (k, ks) = elim (Bool-cases (before y x)) [
    | inl e ↦ rw e (k, insert_row-All before x rows h ks)
    | inr e ↦ rw e (h, (k, ks))
  ]

  order_by-All : (before : A → A → Bool) (rows : List A) → All P rows → All P (order_by before rows)
  unfolding order_by
  order_by-All before [] h = tt
  order_by-All before (x ∷ rows) (h, hs) =
      insert_row-All before x (order_by before rows) h (order_by-All before rows hs)

  take-All : (n : ℕ) (rows : List A) → All P rows → All P (take n rows)
  unfolding take
  take-All zero rows h = tt
  take-All (suc n) [] h = tt
  take-All (suc n) (x ∷ rows) (h, hs) = (h, take-All n rows hs)

  drop-All : (n : ℕ) (rows : List A) → All P rows → All P (drop n rows)
  unfolding drop
  drop-All zero rows h = h
  drop-All (suc n) [] h = tt
  drop-All (suc n) (x ∷ rows) (h, hs) = drop-All n rows hs

All-map {ℓ κ} :
    {A : Type 0} (P : A → Type ℓ) (Q : A → Type κ) (rows : List A)
    → ((x : A) → P x → Q x)
    → All P rows
    → All Q rows
All-map P Q [] f h = tt
All-map P Q (x ∷ rows) f (h, hs) = (f x h, All-map P Q rows f hs)

length-take : {A : Type 0} (n : ℕ) (rows : List A) → length (take n rows) ≤ n
unfolding take
length-take zero rows = omega arith
length-take (suc n) [] = omega arith
length-take (suc n) (x ∷ rows) = omega (arith, length-take n rows)

select-All :
    {A : Type 0} (test : A → Bool) (rows : List A) → All (λ x. test x ≡ true) (select test rows)
unfolding select
select-All test [] = tt
select-All test (x ∷ rows) = elim (Bool-cases (test x)) [
  | inl e ↦ rw e (e, select-All test rows)
  | inr e ↦ rw e (select-All test rows)
]

insert_row-IsNewestFirst :
    (m : Message) (rows : List Message)
    → IsNewestFirst rows
    → IsNewestFirst (insert_row newer m rows)
unfolding insert_row
insert_row-IsNewestFirst m [] h = (tt, tt)
insert_row-IsNewestFirst m (n ∷ rows) (h, hs) = elim (Bool-cases (newer n m)) [
  | inl e ↦ rw e (
    insert_row-All (λ x. x.created_at ≤ n.created_at) newer m rows (ground arith) h,
    insert_row-IsNewestFirst m rows hs,
  )
  | inr e ↦
      let first : n.created_at ≤ m.created_at = ground arith in
      rw e (
        (
          first,
          All-map (λ x. x.created_at ≤ n.created_at) (λ x. x.created_at ≤ m.created_at) rows
              (λ x k. omega (arith, k, first)) h,
        ),
        (h, hs),
      )
]

order_by-IsNewestFirst : (rows : List Message) → IsNewestFirst (order_by newer rows)
unfolding order_by
order_by-IsNewestFirst [] = tt
order_by-IsNewestFirst (m ∷ rows) =
    insert_row-IsNewestFirst m (order_by newer rows) (order_by-IsNewestFirst rows)

take-IsNewestFirst :
    (n : ℕ) (rows : List Message) → IsNewestFirst rows → IsNewestFirst (take n rows)
unfolding take
take-IsNewestFirst zero rows h = tt
take-IsNewestFirst (suc n) [] h = tt
take-IsNewestFirst (suc n) (m ∷ rows) (h, hs) =
    (take-All (λ x. x.created_at ≤ m.created_at) n rows h, take-IsNewestFirst n rows hs)

drop-IsNewestFirst :
    (n : ℕ) (rows : List Message) → IsNewestFirst rows → IsNewestFirst (drop n rows)
unfolding drop
drop-IsNewestFirst zero rows h = h
drop-IsNewestFirst (suc n) [] h = tt
drop-IsNewestFirst (suc n) (m ∷ rows) (h, hs) = drop-IsNewestFirst n rows hs

result-injective : {A : Type 0} {a b : A} → ◌≡◌ {A = Result A} (ok a) (ok b) → a ≡ b
result-injective e = ground arith

module _ (env : Env) where
  got-ok :
      {A : Type 0} (o : Option Error) (r : Result A) (a : A) (db db' : Db)
      → got env o r db ≡ (ok a, db')
      → r ≡ ok a
  unfolding got
  got-ok none r a db db' h = ap (λ x. x.0) h
  got-ok (some e) r a db db' h = cc

  -- A page that `ListByRoom` reads has messages of the room only, whose id is written as
  -- PostgreSQL writes it, at most as many as its limit, and the newest first, in whatever order
  -- the database reads the rows.
  pub list_by_room_page :
      (scan : IsScan env.scan_messages) (room_id : String) (limit offset : ℕ) (ms : List Message)
      (db db' : Db)
      → list_by_room env room_id (pos limit) (pos offset) db ≡ (ok ms, db')
      → All (λ m. m.room_id ≡ env.uuid room_id) ms × IsNewestFirst ms × (length ms ≤ limit)
  unfolding list_by_room query is_in_room limit_rows offset_rows
  list_by_room_page scan room_id limit offset ms db db' h =
      let mine = select (is_in_room (env.uuid room_id)) db.tables.messages in
      let sorted = order_by newer (env.scan_messages mine) in
      let read : take limit (drop offset sorted) ≡ ms = result-injective (
        got-ok (env.unreadable (room_id ∷ []) db) (ok (take limit (drop offset sorted))) ms db db'
          h) in
      let All_mine =
        scan.keeps (is_in_room (env.uuid room_id)) mine
          (select-All (is_in_room (env.uuid room_id)) db.tables.messages) in
      let placed =
        take-All (λ m. is_in_room (env.uuid room_id) m ≡ true) limit (drop offset sorted)
          (drop-All (λ m. is_in_room (env.uuid room_id) m ≡ true) offset sorted
            (order_by-All (λ m. is_in_room (env.uuid room_id) m ≡ true) newer
              (env.scan_messages mine) All_mine)) in
      subst (λ l. All (λ m. m.room_id ≡ env.uuid room_id) l × IsNewestFirst l × (length l ≤ limit))
        read
        (
          All-map (λ m. is_in_room (env.uuid room_id) m ≡ true) (λ m. m.room_id ≡ env.uuid room_id)
              (take limit (drop offset sorted)) (λ m k. (eq_iff m.room_id (env.uuid room_id)).0 k)
              placed,
          take-IsNewestFirst limit (drop offset sorted)
              (drop-IsNewestFirst offset sorted (order_by-IsNewestFirst (env.scan_messages mine))),
          length-take limit (drop offset sorted),
        )

  found-append :
      (id : String) (rows : List Message) (m : Message)
      → All (λ n. n.id ≢ id) rows
      → m.id ≡ id
      → first_row (select (has_id id) (rows ++ m ∷ [])) ≡ ok m
  unfolding select
  found-append id [] m h e = rw (e, eq_refl id) refl
  found-append id (n ∷ rows) m (h, hs) e = rw (eqb-false n.id id h) (found-append id rows m hs e)

  insert_completed-ok :
      (x m' : Message) (db db' : Db)
      → insert_completed env x db ≡ (ok m', db')
      → (x ≡ m') × (db'.tables.messages ≡ db.tables.messages ++ message_row env.uuid x ∷ [])
  unfolding insert_completed insert_message
  insert_completed-ok x m' db db' h =
      let params = x.id ∷ x.room_id ∷ x.sender_id ∷ x.content ∷ x.status ∷ [] in
      let (u, e, last) =
        >>=-ok (exec env params (insert_message (message_row env.uuid x))) (λ u. pure x) db h in
      let after = (exec env params (insert_message (message_row env.uuid x)) db).1 in
      let same : after ≡ db' = ap (λ p. p.1) last in
      (
        ground arith,
        ap (λ (t : Tables). t.messages)
            (exec-ok env params (insert_message (message_row env.uuid x)) db db' u (ground arith)),
      )

  new_of_empty : (m : Message) (db : Db) → m.id ≡ "" → env.new_id db ≡ (completed env m db).id
  unfolding completed
  new_of_empty m db e = rw e refl

  -- With queries that are answered and a new id that no message has, and that is written as
  -- PostgreSQL writes it, a message that `Create` has stored without an id is what the look-up of
  -- the id that it was given finds, but for its attachments and what its times have below a
  -- microsecond: both are lost, though `Create` returns them. The ids of its room and its sender
  -- are found as PostgreSQL writes them.
  pub stored_without_attachments :
      (m m' : Message) (db db' : Db)
      → ((params : List String) (d : Db) → env.unreadable params d ≡ none)
      → All (λ n. n.id ≢ env.new_id db) db.tables.messages
      → env.uuid (env.new_id db) ≡ env.new_id db
      → m.id ≡ ""
      → create env m db ≡ (ok m', db')
      → (m'.attachments ≡ m.attachments)
        × ((get_by_id env m'.id db').0
            ≡ ok (record m' {
              room_id = env.uuid m'.room_id;
              sender_id = env.uuid m'.sender_id;
              attachments = [];
              created_at = in_micros m'.created_at;
              updated_at = in_micros m'.updated_at;
            }))
  unfolding create completed get_by_id query got
  stored_without_attachments m m' db db' readable fresh canonical empty h =
      let x = completed env m db in
      let (same, rows) = insert_completed-ok x m' db db' h in
      let id : env.new_id db ≡ m'.id = new_of_empty m db empty ∙ ap (λ (y : Message). y.id) same in
      let unused = subst (λ i. All (λ (n : Message). n.id ≢ i) db.tables.messages) id fresh in
      let row : message_row env.uuid x ≡ message_row env.uuid m' = ap (message_row env.uuid) same in
      let own : env.uuid m'.id ≡ m'.id = subst (λ i. env.uuid i ≡ i) id canonical in
      (
        sym (ap (λ (y : Message). y.attachments) same),
        rw (readable (m'.id ∷ []) db', rows, row, own)
            (found-append m'.id db.tables.messages (record (message_row env.uuid m') { id = m'.id })
              unused refl),
      )
