-- ===== src/Postgres/Lookup.antt =====
-- What the look-ups of internal/repository/postgres find.
use chatter_stack.Base.{
  refl, String, ◌≡◌, sym, ap, ◌∙◌, Option, none, some, List, [], ◌∷◌, inl, inr, Bool-cases, eq_iff,
}
use chatter_stack.Errors.{Error}
use chatter_stack.Exec.{Result, ok}
use chatter_stack.Models.{User}
use chatter_stack.Postgres.RoomRepo.{list_members}
use chatter_stack.Postgres.{called, Db, Env, select, first_row, query, got}
use chatter_stack.Postgres.UserRepo.{has_id, get_by_id}

first_row-select :
    (id : String) (rows : List User) (r : User)
    → first_row (select (has_id id) rows) ≡ ok r
    → r.id ≡ id
unfolding select
first_row-select id [] r h = cc
first_row-select id (u ∷ rows) r h = elim (Bool-cases (has_id id u)) [
  | inl e ↦
      let same : u ≡ r = let f : ok u ≡ ok r = rw e at h in cc in
      sym (ap (λ x. x.id) same) ∙ (eq_iff u.id id).0 e
  | inr e ↦ first_row-select id rows r (rw e at h)
]

got-ok :
    (env : Env) (o : Option Error) (r : Result User) (db : Db) (u : User)
    → (got env o r db).0 ≡ ok u
    → r ≡ ok u
unfolding got
got-ok env none r db u h = h
got-ok env (some e) r db u h = cc

pub get_by_id-id :
    (env : Env) (id : String) (db : Db) (r : User) → (get_by_id env id db).0 ≡ ok r → r.id ≡ id
unfolding get_by_id query
get_by_id-id env id db r h =
    first_row-select id db.tables.users r (got-ok env (env.unreadable (id ∷ []) db) _ db r h)

-- If queries are answered, lists of members do not depend on which were asked for before.
pub list_members_again :
    (env : Env)
    → ((params : List String) (db : Db) → env.unreadable params db ≡ none)
    → (q r : String) (db : Db)
    → (list_members env r (list_members env q db).1).0 ≡ (list_members env r db).0
unfolding list_members query got
list_members_again env readable q r db =
    rw (readable (q ∷ []) db, readable (r ∷ []) db, readable (r ∷ []) (called db)) refl
