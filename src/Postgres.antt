-- ===== src/Postgres.antt =====
-- internal/repository/postgres over the tables of db/migrations/0001_init.up.sql: how the statements
-- of the repositories run. PostgreSQL is a parameter where the text of a statement does not say what
-- happens: which statements it refuses, the order of rows without ORDER BY, and ILIKE.
pub mod RoomRepo
pub mod MessageRepo
pub mod UserRepo
pub mod Counting
pub mod Lookup
pub mod Created
pub mod DirectRooms
pub mod Receipts
pub mod History
pub mod Tests
use chatter_stack.Base.{
  ℕ, suc, ◌-◌, ◌+◌, ◌/◌, ◌*◌, zero, ℤ, pos, negsuc, String, Bool, true, false, Option, none, some,
  List, [], ◌∷◌, ◌++◌, if◌then◌else◌,
}
use chatter_stack.Errors.{Error, no_rows, pg}
use chatter_stack.Exec.{Result, ok, err, Exec}
use chatter_stack.Models.{User, Room, RoomMember, Message, MessageReceipt}

-- A row holds the columns of its table; a message row has no attachments. A UUID is the text that
-- PostgreSQL gives it, and a time has microseconds.
pub record Tables : Type 0 where
  pub users : List User
  pub rooms : List Room
  pub members : List RoomMember
  pub messages : List Message
  pub receipts : List MessageReceipt

-- `calls` counts the calls of the pool, for clocks and sources of ids to depend on.
pub record Db : Type 0 where
  pub tables : Tables
  pub calls : ℕ

-- `refuses` and `unreadable` say with which error a statement with these parameters ends, if it does:
-- the first knows the tables that the statement would leave, so it can stand for every constraint.
-- `begins` and `commits` say so for a transaction; a commit that fails may have been done all the same,
-- if its answer is lost. `reserve` says whether `make` gets the space for so many rows.
-- `uuid` is the text of the UUID that a text stands for, as a column has it. `new_id` is uuid.New,
-- `now` is time.Now.
-- `scan_rooms` and `scan_messages` put rows into the order in which they are read, and `matches text
-- query` is `text ILIKE '%' || query || '%'`.
pub record Env : Type 0 where
  pub refuses : List String → Tables → Db → Option Error
  pub unreadable : List String → Db → Option Error
  pub begins : Db → Option Error
  pub commits : Db → Option (Error × Bool)
  pub reserve : ℤ → Bool
  pub uuid : String → String
  pub new_id : Db → String
  pub now : Db → ℕ
  pub scan_rooms : List Room → List Room
  pub scan_messages : List Message → List Message
  pub matches : String → String → Bool

-- The driver hands over a time in microseconds.
unfoldable pub in_micros : ℕ → ℕ
in_micros time = time / 1000 * 1000

abbrev pub called : Db → Db
called db = record db { calls = suc db.calls }

module _ {A : Type 0} where
  -- WHERE
  unfoldable pub select : (A → Bool) → List A → List A
  select test [] = []
  select test (x ∷ rows) = let rest = select test rows in if test x then x ∷ rest else rest

  -- UPDATE
  unfoldable pub update_rows : (A → Bool) → (A → A) → List A → List A
  update_rows test f [] = []
  update_rows test f (x ∷ rows) = (if test x then f x else x) ∷ update_rows test f rows

  -- Whether a row with that key is there.
  unfoldable pub any_row : (A → Bool) → List A → Bool
  any_row test [] = false
  any_row test (x ∷ rows) = let rest = any_row test rows in if test x then true else rest

  -- ORDER BY: rows that the order does not tell apart stay as they were read.
  unfoldable pub insert_row : (A → A → Bool) → A → List A → List A
  insert_row before x [] = x ∷ []
  insert_row before x (y ∷ rows) =
      let rest = insert_row before x rows in if before y x then y ∷ rest else x ∷ y ∷ rows

  unfoldable pub order_by : (A → A → Bool) → List A → List A
  unfolding insert_row
  order_by before [] = []
  order_by before (x ∷ rows) = insert_row before x (order_by before rows)

  unfoldable pub take : ℕ → List A → List A
  take zero rows = []
  take (suc n) [] = []
  take (suc n) (x ∷ rows) = x ∷ take n rows

  unfoldable pub drop : ℕ → List A → List A
  drop zero rows = rows
  drop (suc n) [] = []
  drop (suc n) (x ∷ rows) = drop n rows

  -- LIMIT and OFFSET
  unfoldable pub limit_rows : ℤ → List A → Result (List A)
  unfolding take
  limit_rows (pos n) rows = ok (take n rows)
  limit_rows (negsuc n) rows = err (pg "2201W" "" "LIMIT must not be negative")

  unfoldable pub offset_rows : ℤ → List A → Result (List A)
  unfolding drop
  offset_rows (pos n) rows = ok (drop n rows)
  offset_rows (negsuc n) rows = err (pg "2201X" "" "OFFSET must not be negative")

  -- row.Scan of QueryRow
  abbrev pub first_row : List A → Result A
  first_row [] = err no_rows
  first_row (x ∷ rows) = ok x

module _ (env : Env) where
  pub wrote : {A : Type 0} → Option Error → Tables → A → Exec Db A
  wrote none t a db = (ok a, record { tables = t; calls = suc db.calls })
  wrote (some e) t a db = (err e, called db)

  -- pool.Exec or tx.Exec of a statement that changes the tables; `rows` counts the rows it affects.
  unfoldable pub exec_rows :
      {A : Type 0} → List String → (Tables → A) → (Tables → Tables) → Exec Db A
  unfolding wrote
  exec_rows params rows f db =
      wrote (env.refuses params (f db.tables) db) (f db.tables) (rows db.tables) db

  unfoldable pub exec : List String → (Tables → Tables) → Exec Db (Unit {0})
  unfolding exec_rows
  exec params f = exec_rows params (λ t. tt) f

  pub got : {A : Type 0} → Option Error → Result A → Exec Db A
  got none r db = (r, called db)
  got (some e) r db = (err e, called db)

  -- pool.Query or pool.QueryRow, with its rows scanned
  unfoldable pub query : {A : Type 0} → List String → (Tables → Result A) → Exec Db A
  unfolding got
  query params g db = got (env.unreadable params db) (g db.tables) db

  -- A failed commit has been done or not.
  pub committed : {A : Type 0} → Option (Error × Bool) → Tables → A → Exec Db A
  committed none before a db = (ok a, called db)
  committed (some (e, done)) before a db =
      (err e, record { tables = if done then db.tables else before; calls = suc db.calls })

  pub finish : {A : Type 0} → Tables → Result A → Exec Db A
  unfolding committed
  finish before (ok a) db = committed (env.commits db) before a db
  finish before (err e) db = (err e, record db { tables = before })

  pub begun : {A : Type 0} → Option Error → Exec Db A → Exec Db A
  unfolding finish
  begun none body db = finish db.tables (body (called db)).0 (body (called db)).1
  begun (some e) body db = (err e, called db)

  -- `tx, err := r.pool.Begin(ctx)`, `defer rollback(ctx, tx)`, the statements, `return tx.Commit(ctx)`
  unfoldable pub transaction : {A : Type 0} → Exec Db A → Exec Db A
  unfolding begun
  transaction body db = begun (env.begins db) body db
