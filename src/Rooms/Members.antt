-- ===== src/Rooms/Members.antt =====
-- The members of a new room, `buildMembers` of internal/domain/rooms/service_impl.go.
use chatter_stack.Base.{
  String, ◌≡◌, ◌≢◌, refl, true, false, ◌||◌, Option, none, some, List, [], ◌∷◌, ◌++◌, arith, eqb,
  eq_iff, Bool-cases, inl, inr, All, trim_space, if◌then◌else◌,
}
use chatter_stack.Models.{RoomMember, role_admin}
use chatter_stack.Rooms.{
  RoomMemberInput, CreateRoomInput, exists, member, or_default, collect, seen_members,
}

-- No user is listed twice.
abbrev pub HasDistinctUsers : List RoomMember → Type 0
HasDistinctUsers [] = Unit
HasDistinctUsers (m ∷ ms) = All (λ n. n.user_id ≢ m.user_id) ms × HasDistinctUsers ms

absent_append :
    (u v r : String) (seen : List RoomMember)
    → v ≢ u
    → All (λ n. n.user_id ≢ u) seen
    → All (λ n. n.user_id ≢ u) (seen ++ member v r ∷ [])
unfolding member
absent_append u v r [] h k = (h, tt)
absent_append u v r (m ∷ seen) h k = (k.0, absent_append u v r seen h k.1)

append-HasDistinctUsers :
    (v r : String) (seen : List RoomMember)
    → exists v seen ≡ false
    → HasDistinctUsers seen
    → HasDistinctUsers (seen ++ member v r ∷ [])
unfolding exists
append-HasDistinctUsers v r [] h d = (tt, tt)
append-HasDistinctUsers v r (m ∷ seen) h d = (
  absent_append m.user_id v r seen (λ e. ground (arith, eq_iff m.user_id v)) d.0,
  append-HasDistinctUsers v r seen (ground arith) d.1,
)

collect-HasDistinctUsers :
    (seen : List RoomMember) (rest : List RoomMemberInput)
    → HasDistinctUsers seen
    → HasDistinctUsers (collect seen rest)
unfolding collect
collect-HasDistinctUsers seen [] d = d
collect-HasDistinctUsers seen (m ∷ rest) d =
    let user = trim_space m.user_id in
    elim (Bool-cases (eqb user "" || exists user seen)) [
      | inl e ↦ rw e (collect-HasDistinctUsers seen rest d)
      | inr e ↦ rw e (
          collect-HasDistinctUsers (seen ++ member user (or_default m.role) ∷ []) rest
            (append-HasDistinctUsers user (or_default m.role) seen (ground arith) d))
    ]

-- Whatever the request lists, no user stands twice among the members of a new room.
pub seen_members-HasDistinctUsers :
    (input : CreateRoomInput) → HasDistinctUsers (seen_members input)
unfolding seen_members
seen_members-HasDistinctUsers input =
    collect-HasDistinctUsers (member input.creator_id role_admin ∷ []) input.members (tt, tt)

-- The role under which a list has a user.
abbrev pub role_of : String → List RoomMember → Option String
role_of u [] = none
role_of u (m ∷ ms) = if eqb m.user_id u then some m.role else role_of u ms

-- The role that a request asks for a user: that of the first entry that names the user, "member"
-- where it leaves the role out. An entry with a blank user names nobody.
abbrev pub asked_role : String → List RoomMemberInput → Option String
asked_role u [] = none
asked_role u (m ∷ ms) =
    if eqb (trim_space m.user_id) u then some (or_default m.role) else asked_role u ms

abbrev or_else : Option String → Option String → Option String
or_else none o = o
or_else (some r) o = some r

role_of-append :
    (u v r : String) (seen : List RoomMember)
    → role_of u (seen ++ member v r ∷ [])
      ≡ or_else (role_of u seen) (if eqb v u then some r else none)
unfolding member
role_of-append u v r [] = refl
role_of-append u v r (m ∷ seen) = ground (arith, role_of-append u v r seen)

or_else_of_exists :
    (u : String) (seen : List RoomMember) (o : Option String)
    → exists u seen ≡ true
    → or_else (role_of u seen) o ≡ role_of u seen
unfolding exists
or_else_of_exists u [] o h = ground arith
or_else_of_exists u (m ∷ seen) o h = ground (arith, or_else_of_exists u seen o)

or_else_assoc : (a b c : Option String) → or_else (or_else a b) c ≡ or_else a (or_else b c)
or_else_assoc none b c = refl
or_else_assoc (some r) b c = refl

role_of-collect :
    (u : String) (seen : List RoomMember) (rest : List RoomMemberInput)
    → u ≢ ""
    → role_of u (collect seen rest) ≡ or_else (role_of u seen) (asked_role u rest)
unfolding collect
role_of-collect u seen [] h = ground arith
role_of-collect u seen (m ∷ rest) h =
    let v = trim_space m.user_id in
    let r = or_default m.role in
    elim (Bool-cases (eqb v "" || exists v seen)) [
      | inl e ↦ rw e (
          ground (
            arith,
            role_of-collect u seen rest h,
            or_else_of_exists u seen (some r),
            or_else_of_exists u seen (asked_role u rest),
            eq_iff v "",
            eq_iff v u,
          ))
      | inr e ↦ rw e (
          rw (role_of-collect u (seen ++ member v r ∷ []) rest h, role_of-append u v r seen)
            (rw
              (or_else_assoc (role_of u seen) (if eqb v u then some r else none)
                (asked_role u rest))
              (ground arith)))
    ]

-- A non-blank user has the role "admin" in a new room if the user is its creator, else the role
-- that the request asks for, and is no member if the request does not name the user.
pub role_of-seen_members :
    (input : CreateRoomInput) (u : String)
    → u ≢ ""
    → role_of u (seen_members input)
      ≡ (if eqb input.creator_id u then some role_admin else asked_role u input.members)
unfolding seen_members member
role_of-seen_members input u h =
    ground (arith, role_of-collect u (member input.creator_id role_admin ∷ []) input.members h)
