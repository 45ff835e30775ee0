-- ===== src/Rooms/Creation.antt =====
-- Creating a room: `Create` of internal/domain/rooms/service_impl.go.
use chatter_stack.Base.{
  String, ◌≡◌, refl, false, Option, none, some, List, [], ◌∷◌, arith, length, trim_space, ◌≤◌, ◌++◌,
  length-append,
}
use chatter_stack.Exec.{Result, ok, err, Exec, pure, each, ignore, map_result, continue, ◌>>◌}
use chatter_stack.Models.{Room, RoomMember, role_admin}
use chatter_stack.Rooms.{
  Service, Publisher, CreateRoomInput, seen_members, collect, member, RoomMemberInput, or_default,
  new_room, create, announce, is_empty, publish_room_added, is_blank,
}
use chatter_stack.Rooms.Members.{HasDistinctUsers, role_of}

-- What one run through a map gives: every entry once, in some order.
pub record Iterates (iterate : List RoomMember → List RoomMember) : Type 0 where
  pub roles :
      (ms : List RoomMember) (u : String)
      → HasDistinctUsers ms
      → role_of u (iterate ms) ≡ role_of u ms
  pub lengths : (ms : List RoomMember) → length (iterate ms) ≡ length ms

not-is_empty : (ms : List RoomMember) → 1 ≤ length ms → is_empty ms ≡ false
unfolding is_empty
not-is_empty [] h = absurd (omega arith)
not-is_empty (m ∷ ms) h = refl

length-collect :
    (seen : List RoomMember) (rest : List RoomMemberInput)
    → length seen ≤ length (collect seen rest)
unfolding collect
length-collect seen [] = omega arith
length-collect seen (m ∷ rest) = ground (
  arith,
  length-collect seen rest,
  length-collect (seen ++ member (trim_space m.user_id) (or_default m.role) ∷ []) rest,
  length-append seen (member (trim_space m.user_id) (or_default m.role) ∷ []),
)

length-seen_members : (input : CreateRoomInput) → 1 ≤ length (seen_members input)
unfolding seen_members
length-seen_members input = length-collect (member input.creator_id role_admin ∷ []) input.members

each-ignore :
    {W A : Type 0} (f : A → Exec W (Unit {0})) (xs : List A) (w : W)
    → (each (λ x. ignore (f x)) xs w).0 ≡ ok tt
each-ignore f [] w = refl
each-ignore f (x ∷ xs) w = each-ignore f xs (f x w).1

module _ {W : Type 0} (s : Service W) where
  announce_ok :
      (p : Option (Publisher W)) (r : Room) (ms : List RoomMember) (w : W)
      → (announce s p r ms w).0 ≡ ok tt
  unfolding announce
  announce_ok none r ms w = refl
  announce_ok (some publish) r ms w =
      each-ignore (λ m. publish_room_added s publish r m.user_id) ms w

  finish :
      (r : Result (Room × List RoomMember)) (w : W)
      → (continue r (λ p. announce s s.pub_sub p.0 p.1 >> pure p.0) w).0 ≡ map_result (λ p. p.0) r
  finish (ok (r, ms)) w = rw (announce_ok s.pub_sub r ms w)
  finish (err e) w = refl

  -- With a name and a creator that are not blank, and an iteration that gives each member of the
  -- map, `Create` returns what the repository returns for the trimmed name and the members of the
  -- request in the order of the map, whatever the publisher does.
  pub create_result :
      (input : CreateRoomInput) (w : W)
      → Iterates s.iterate
      → is_blank input.name ≡ false
      → is_blank input.creator_id ≡ false
      → (create s input w).0
        ≡ map_result
            (λ p. p.0)
            (s.repo.create (new_room input) (s.iterate (seen_members input)) w).0
  unfolding create
  create_result input w it named creator =
      let full : is_empty (s.iterate (seen_members input)) ≡ false =
        not-is_empty (s.iterate (seen_members input))
          (omega (arith, it.lengths (seen_members input), length-seen_members input)) in
      rw (named, creator, full)
        (finish (s.repo.create (new_room input) (s.iterate (seen_members input)) w).0
          (s.repo.create (new_room input) (s.iterate (seen_members input)) w).1)

  ends_well :
      (f : Result (Room × List RoomMember)) (w : W) {r : Room} {w' : W}
      → continue f (λ p. announce s s.pub_sub p.0 p.1 >> pure p.0) w ≡ (ok r, w')
      → (ms : List RoomMember) × (f ≡ ok (r, ms)) × (w' ≡ (announce s s.pub_sub r ms w).1)
  ends_well (ok (r, ms)) w h = (
    ms,
    ground (arith, announce_ok s.pub_sub r ms w),
    ground (arith, announce_ok s.pub_sub r ms w),
  )
  ends_well (err e) w h = cc

  -- A room that was created is the repository's, and then it was announced.
  pub create_inversion :
      (input : CreateRoomInput) (w : W) {r : Room} {w' : W}
      → create s input w ≡ (ok r, w')
      → (ms : List RoomMember) × ((s.repo.create
            (new_room input)
            (s.iterate (seen_members input))
            w).0
          ≡ ok (r, ms))
        × (w'
            ≡ (announce s s.pub_sub r ms
                (s.repo.create (new_room input) (s.iterate (seen_members input)) w).1).1)
  unfolding create
  create_inversion input w h =
      ends_well (s.repo.create (new_room input) (s.iterate (seen_members input)) w).0
        (s.repo.create (new_room input) (s.iterate (seen_members input)) w).1 (ground arith)
