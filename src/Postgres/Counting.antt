-- ===== src/Postgres/Counting.antt =====
-- The counts of FindDirectRoom (internal/repository/postgres/room_repo.go) on tables that grow.
use chatter_stack.Base.{
  suc, ◌+◌, String, ◌≡◌, ◌≢◌, refl, sym, ap, ◌∙◌, Bool, true, false, ◌||◌, none, List, [], ◌∷◌,
  ◌++◌, map, eqb, eq_iff, eqb-false, arith, inl, inr, All, Bool-cases, length,
}
use chatter_stack.Models.{Room, RoomMember}
use chatter_stack.Rooms.Members.{role_of}
use chatter_stack.Postgres.{select}
use chatter_stack.Postgres.RoomRepo.{is_user_in, count_members, count_users, is_direct}

count_members-append :
    (id : String) (ms ns : List RoomMember)
    → count_members id (ms ++ ns) ≡ count_members id ms + count_members id ns
unfolding count_members
count_members-append id [] ns = omega arith
count_members-append id (m ∷ ms) ns = ground (arith, count_members-append id ms ns)

is_user_in-append :
    (u id : String) (ms ns : List RoomMember)
    → is_user_in u id (ms ++ ns) ≡ (is_user_in u id ms || is_user_in u id ns)
unfolding is_user_in
is_user_in-append u id [] ns = refl
is_user_in-append u id (m ∷ ms) ns = ground (arith, is_user_in-append u id ms ns)

-- A room that no row of the list is in.
absent :
    (u id : String) (ms : List RoomMember)
    → All (λ m. m.room_id ≢ id) ms
    → (count_members id ms ≡ 0) × (is_user_in u id ms ≡ false)
unfolding count_members is_user_in
absent u id [] h = (refl, refl)
absent u id (m ∷ ms) (h, hs) =
    let (c, d) = absent u id ms hs in rw (eqb-false m.room_id id h, c, d) (refl, refl)

pub elsewhere :
    (id j : String) (ms : List RoomMember)
    → id ≢ j
    → All (λ m. m.room_id ≡ j) ms
    → All (λ m. m.room_id ≢ id) ms
elsewhere id j [] n h = tt
elsewhere id j (m ∷ ms) n (h, hs) = (λ e. n (sym e ∙ h), elsewhere id j ms n hs)

-- Whether a name is in a list.
lists : String → List String → Bool
lists u [] = false
lists u (v ∷ names) = eqb v u || lists u names

-- A room that every row of the list is in.
present :
    (u id : String) (ms : List RoomMember)
    → All (λ m. m.room_id ≡ id) ms
    → (count_members id ms ≡ length ms)
      × (is_user_in u id ms ≡ lists u (map (λ (m : RoomMember). m.user_id) ms))
unfolding count_members is_user_in lists
present u id [] h = (refl, refl)
present u id (m ∷ ms) (h, hs) =
    let (c, d) = present u id ms hs in
    let here : eqb m.room_id id ≡ true = ground (arith, eq_iff m.room_id id) in
    rw (here, c, d) (refl, refl)

lists_of_role :
    (u : String) (ms : List RoomMember)
    → role_of u ms ≢ none
    → lists u (map (λ (m : RoomMember). m.user_id) ms) ≡ true
unfolding lists
lists_of_role u [] h = absurd (h refl)
lists_of_role u (m ∷ ms) h = ground (arith, lists_of_role u ms)

length-map : (ms : List RoomMember) → length (map (λ (m : RoomMember). m.user_id) ms) ≡ length ms
length-map [] = refl
length-map (m ∷ ms) = ap suc (length-map ms)

-- Rows for two users in one room, and no others in it.
pub two_present :
    (p q id : String) (old ms ms' : List RoomMember)
    → All (λ m. m.room_id ≢ id) old
    → All (λ m. m.room_id ≡ id) ms'
    → map (λ (m : RoomMember). m.user_id) ms' ≡ map (λ (m : RoomMember). m.user_id) ms
    → length ms ≡ 2
    → role_of p ms ≢ none
    → role_of q ms ≢ none
    → p ≢ q
    → (count_members id (old ++ ms') ≡ 2) × (count_users p q id (old ++ ms') ≡ 2)
unfolding count_users
two_present p q id old ms ms' away here same n hp hq d =
    let (c0, p0) = absent p id old away in
    let (_, q0) = absent q id old away in
    let (c1, p1) = present p id ms' here in
    let (_, q1) = present q id ms' here in
    let len : length ms' ≡ 2 = sym (length-map ms') ∙ (ap length same ∙ (length-map ms ∙ n)) in
    let p2 : is_user_in p id ms' ≡ true = p1 ∙ (ap (lists p) same ∙ lists_of_role p ms hp) in
    let q2 : is_user_in q id ms' ≡ true = q1 ∙ (ap (lists q) same ∙ lists_of_role q ms hq) in
    (
      omega (arith, count_members-append id old ms', c0, c1, len),
      rw
          (
            is_user_in-append p id old ms',
            is_user_in-append q id old ms',
            p0,
            q0,
            p2,
            q2,
            eqb-false p q d,
          )
          refl,
    )

-- Rows in another room change nothing.
pub is_direct-elsewhere :
    (p q : String) (r : Room) (old ms' : List RoomMember)
    → All (λ m. m.room_id ≢ r.id) ms'
    → is_direct p q (old ++ ms') r ≡ is_direct p q old r
unfolding is_direct count_users
is_direct-elsewhere p q r old ms' away =
    let (c, p0) = absent p r.id ms' away in
    let (_, q0) = absent q r.id ms' away in
    let count : count_members r.id (old ++ ms') ≡ count_members r.id old =
      omega (arith, count_members-append r.id old ms', c) in
    let first : is_user_in p r.id (old ++ ms') ≡ is_user_in p r.id old =
      is_user_in-append p r.id old ms' ∙ ground (arith, p0) in
    let second : is_user_in q r.id (old ++ ms') ≡ is_user_in q r.id old =
      is_user_in-append q r.id old ms' ∙ ground (arith, q0) in
    rw (count, first, second) refl

-- Of rows that one condition leaves out and another does not tell apart, the last is selected.
pub select-last :
    (test test' : Room → Bool) (rows : List Room) (x : Room)
    → All (λ r. test' r ≡ test r) rows
    → select test rows ≡ []
    → test' x ≡ true
    → select test' (rows ++ x ∷ []) ≡ x ∷ []
unfolding select
select-last test test' [] x same h here = rw here refl
select-last test test' (r ∷ rows) x (e, same) h here = elim (Bool-cases (test r)) [
  | inl f ↦ absurd (ground (arith, rw f at h))
  | inr f ↦ rw (e, f) (select-last test test' rows x same (rw f at h) here)
]
