-- ===== src/Rooms/Access.antt =====
-- Who may delete a room, the members that are added to it, and the bounds of a search, in
-- internal/domain/rooms/service_impl.go.
use chatter_stack.Base.{
  ℕ, String, ◌≡◌, ◌≢◌, refl, false, Option, none, some, ℤ, pos, zero, suc, ltb, negsuc, ◌≤◌, arith,
  eq_iff, inl, inr, trim_space, if◌then◌else◌,
}
use chatter_stack.Errors.{no_rows, room, RoomError, room_not_found}
use chatter_stack.Exec.{Result-cases, Result, ok, err}
use chatter_stack.Models.{Room}
use chatter_stack.Rooms.{
  Service, Publisher, is_blank, or_default, clamp_limit, add_member, announce_added, announce_found,
  search, delete,
}

module _ {W : Type 0} (s : Service W) where
  open s use {repo}

  -- `Delete` of a room succeeds only if the look-up of the trimmed id finds a room that the
  -- trimmed requester has created, and then the repository has deleted that id.
  pub delete_by_creator :
      (id requester : String) (w w' : W)
      → delete s id requester w ≡ (ok tt, w')
      → (r : Room) × ((repo.get_by_id (trim_space id) w).0 ≡ ok r)
        × (r.created_by ≡ trim_space requester)
        × (repo.delete (trim_space id) (repo.get_by_id (trim_space id) w).1 ≡ (ok tt, w'))
  unfolding delete
  delete_by_creator id requester w w' h = elim (Result-cases (repo.get_by_id (trim_space id) w).0) [
    | inl (r, e) ↦ (r, e, ground (arith, eq_iff r.created_by (trim_space requester)), ground arith)
    | inr (e, f) ↦ absurd (ground arith)
  ]

  -- For an id and a requester that are not blank, `Delete` of a room that somebody else has
  -- created is refused, and nothing but the look-up has been done.
  pub delete_refused :
      (id requester : String) (r : Room) (w : W)
      → is_blank id ≡ false
      → is_blank requester ≡ false
      → (repo.get_by_id (trim_space id) w).0 ≡ ok r
      → r.created_by ≢ trim_space requester
      → delete s id requester w
        ≡ (err (room RoomError.delete_not_allowed), (repo.get_by_id (trim_space id) w).1)
  unfolding delete
  delete_refused id requester r w h k found n =
      ground (arith, eq_iff r.created_by (trim_space requester))

  -- The look-up of a room that is not there.
  pub delete_missing :
      (id requester : String) (w : W)
      → is_blank id ≡ false
      → is_blank requester ≡ false
      → (repo.get_by_id (trim_space id) w).0 ≡ err no_rows
      → (delete s id requester w).0 ≡ err (room room_not_found)
  unfolding delete
  delete_missing id requester w h k missing = rw (h, k, missing) refl

  -- That a room is missing is never told by the driver's error.
  pub delete-ne-no_rows :
      (id requester : String) (w : W) → (delete s id requester w).0 ≢ err no_rows
  unfolding delete
  delete-ne-no_rows id requester w h = ground arith

  announce_found_ok :
      (o : Option (Publisher W)) (f : Result Room) (u : String) (w : W)
      → (announce_found s o f u w).0 ≡ ok tt
  unfolding announce_found
  announce_found_ok none f u w = refl
  announce_found_ok (some publish) (ok r) u w = refl
  announce_found_ok (some publish) (err e) u w = refl

  announce_added_ok :
      (o : Option (Publisher W)) (room_id u : String) (w : W)
      → (announce_added s o room_id u w).0 ≡ ok tt
  unfolding announce_added
  announce_added_ok none room_id u w = refl
  announce_added_ok (some publish) room_id u w =
      announce_found_ok (some publish) (repo.get_by_id room_id w).0 u (repo.get_by_id room_id w).1

  -- For a room and a user that are not blank, `AddMember` returns what the repository returns for
  -- the membership, with the role "member" where none is given: neither the look-up of the room
  -- nor the publisher can make it fail.
  pub add_member_result :
      (room_id user role : String) (w : W)
      → is_blank room_id ≡ false
      → is_blank user ≡ false
      → (add_member s room_id user role w).0
        ≡ (repo.add_member
            (record { id = ""; room_id = room_id; user_id = user; role = or_default role })
            w).0
  unfolding add_member
  add_member_result room_id user role w h k =
      let added =
        repo.add_member
          (record { id = ""; room_id = room_id; user_id = user; role = or_default role }) w in
      ground (arith, announce_added_ok s.pub_sub room_id user added.1)

-- The limit that a request gets: 20 if it asks for none, and at most 100.
abbrev pub effective_limit : ℤ → ℕ
effective_limit (pos zero) = 20
effective_limit (pos (suc n)) = if ltb 100 (suc n) then 100 else suc n
effective_limit (negsuc n) = 20

clamp_limit-eq : (limit : ℤ) → clamp_limit limit ≡ pos (effective_limit limit)
clamp_limit-eq (pos zero) = refl
clamp_limit-eq (pos (suc n)) = ground arith
clamp_limit-eq (negsuc n) = ground arith

-- A search by a user that is not blank reaches the repository with trimmed texts and a limit from
-- 1 to 100: 20 if the requested one is not positive, 100 if it is larger than that, else the
-- requested one.
pub search_bounds :
    {W : Type 0} (s : Service W) (user query : String) (limit : ℤ) (w : W)
    → is_blank user ≡ false
    → (search s user query limit w
        ≡ s.repo.search (trim_space user) (trim_space query) (pos (effective_limit limit)) w)
      × (1 ≤ effective_limit limit)
      × (effective_limit limit ≤ 100)
unfolding search
search_bounds s user query limit w h = (rw (h, clamp_limit-eq limit), positive limit, bounded limit)
  where
    positive : (limit : ℤ) → 1 ≤ effective_limit limit
    positive (pos zero) = omega arith
    positive (pos (suc n)) = ground arith
    positive (negsuc n) = omega arith

    bounded : (limit : ℤ) → effective_limit limit ≤ 100
    bounded (pos zero) = omega arith
    bounded (pos (suc n)) = ground arith
    bounded (negsuc n) = omega arith
