-- ===== src/Rooms/Reuse.antt =====
-- Direct rooms are created once: `EnsureDirectRoom` of
-- internal/domain/rooms/service_impl.go.
use chatter_stack.Base.{
  ap, subst, ◌∙◌, String, cat, ◌≡◌, ◌≢◌, refl, sym, true, false, Option, none, some, List, [], ◌∷◌,
  arith, eqb, eq_iff, eqb-false, inl, inr, ◌⊎◌, length, trim_space, trim_space_idem,
}
use chatter_stack.Errors.{no_rows}
use chatter_stack.Exec.{Result, ok, err, each, ignore}
use chatter_stack.Models.{Room, RoomMember, role_admin, role_member}
use chatter_stack.Rooms.{
  Service, Publisher, seen_members, member, new_room, normalize_pair, direct_input, create,
  announce, publish_room_added, publish_marshaled, find_pair, ensure_direct_room,
}
use chatter_stack.Rooms.Members.{role_of, seen_members-HasDistinctUsers}
use chatter_stack.Rooms.Creation.{Iterates, create_inversion}
use chatter_stack.Rooms.Direct.{
  ensure_valid, valid_of_ok, created_of_true, missing_of_true, named_of_valid, ne_of_valid,
  ensure_found, ensure_direct_room_comm,
}

-- What the repository and the publisher have to give for direct rooms: when the look-up of two users
-- has found no room, and then a new room that is no group is created with the two as its members,
-- it is what the look-up of the two finds; and publishing an event does not change what a look-up
-- finds. A room may be found in another form than it was created in, `stored`, and not every text has
-- to be one of a user that the repository knows.
pub record FindsDirectRooms {W : Type 0} (stored : Room → Room) (IsKnown : String → Type 0)
    (s : Service W) : Type 0 where
  pub finds :
      (p q : String) (r r' : Room) (ms ms' : List RoomMember) (w0 w w' : W)
      → r.is_group ≡ false
      → r.id ≡ ""
      → length ms ≡ 2
      → role_of p ms ≢ none
      → role_of q ms ≢ none
      → p ≢ q
      → IsKnown p
      → IsKnown q
      → s.repo.find_direct_room p q w0 ≡ (err no_rows, w)
      → s.repo.create r ms w ≡ (ok (r', ms'), w')
      → (s.repo.find_direct_room p q w').0 ≡ ok (stored r')
  pub keeps :
      (publish : Publisher W) (p q channel payload : String) (w : W)
      → s.pub_sub ≡ some publish
      → (s.repo.find_direct_room p q (publish channel payload w).1).0
        ≡ (s.repo.find_direct_room p q w).0

module _ {W : Type 0} {stored : Room → Room} {IsKnown : String → Type 0} (s : Service W) where
  find-publish :
      FindsDirectRooms stored IsKnown s
      → (publish : Publisher W) (u p q : String) (bytes : Result String) (w : W)
      → s.pub_sub ≡ some publish
      → (s.repo.find_direct_room p q (publish_marshaled s publish u bytes w).1).0
        ≡ (s.repo.find_direct_room p q w).0
  unfolding publish_marshaled
  find-publish laws publish u p q (ok bytes) w e =
      laws.keeps publish p q (cat "users:" (cat u ":events")) bytes w e
  find-publish laws publish u p q (err x) w e = refl

  find-each :
      FindsDirectRooms stored IsKnown s
      → (publish : Publisher W) (r : Room) (ms : List RoomMember) (p q : String) (w : W)
      → s.pub_sub ≡ some publish
      → (s.repo.find_direct_room p q
          (each (λ m. ignore (publish_room_added s publish r m.user_id)) ms w).1).0
        ≡ (s.repo.find_direct_room p q w).0
  unfolding publish_room_added
  find-each laws publish r [] p q w e = refl
  find-each laws publish r (m ∷ ms) p q w e =
      find-each laws publish r ms p q (publish_room_added s publish r m.user_id w).1 e
      ∙ find-publish laws publish m.user_id p q (s.marshal r) w e

  find-announce :
      FindsDirectRooms stored IsKnown s
      → (o : Option (Publisher W)) (r : Room) (ms : List RoomMember) (p q : String) (w : W)
      → s.pub_sub ≡ o
      → (s.repo.find_direct_room p q (announce s o r ms w).1).0 ≡ (s.repo.find_direct_room p q w).0
  unfolding announce
  find-announce laws none r ms p q w e = refl
  find-announce laws (some publish) r ms p q w e = find-each laws publish r ms p q w e

two_members :
    (a b : String) (pair : String × String)
    → eqb b "" ≡ false
    → trim_space b ≡ b
    → a ≢ b
    → seen_members (direct_input a b pair) ≡ member a role_admin ∷ member b role_member ∷ []
unfolding seen_members
two_members a b (p, q) h t n = rw t (rw (h, eqb-false a b n) refl)

in_two :
    (a b u : String)
    → (u ≡ a) ⊎ (u ≡ b)
    → role_of u (member a role_admin ∷ member b role_member ∷ []) ≢ none
unfolding member
in_two a b u (inl e) k = ground (arith, eq_iff a u)
in_two a b u (inr e) k = ground (arith, eq_iff b u)

module _ {W : Type 0} {stored : Room → Room} {IsKnown : String → Type 0} (s : Service W)
    (laws : FindsDirectRooms stored IsKnown s) (it : Iterates s.iterate) where
  found_after_create :
      (a b p q : String) (w0 w : W) {r : Room} {w' : W}
      → eqb b "" ≡ false
      → trim_space b ≡ b
      → a ≢ b
      → ((p ≡ a) × (q ≡ b)) ⊎ ((p ≡ b) × (q ≡ a))
      → IsKnown p
      → IsKnown q
      → s.repo.find_direct_room p q w0 ≡ (err no_rows, w)
      → create s (direct_input a b (p, q)) w ≡ (ok r, w')
      → (s.repo.find_direct_room p q w').0 ≡ ok (stored r)
  found_after_create a b p q w0 w h t n either kp kq missing made =
      let input = direct_input a b (p, q) in
      let listed = s.iterate (seen_members input) in
      let (ms, kept, last) = create_inversion s input w made in
      let made' = s.repo.create (new_room input) listed w in
      let role =
        λ (u : String). it.roles (seen_members input) u (seen_members-HasDistinctUsers input) in
      let two = two_members a b (p, q) h t n in
      rw (last, find-announce s laws s.pub_sub _ ms p q made'.1 refl)
        (laws.finds p q (new_room input) _ listed ms w0 w made'.1 refl refl
          (it.lengths (seen_members input) ∙ ap length two)
          (rw (role p, two) (in_two a b p (first either)))
          (rw (role q, two) (in_two a b q (second either))) (differ either) kp kq missing
          (ap (λ x. (x, made'.1)) kept))
    where
      first : ((p ≡ a) × (q ≡ b)) ⊎ ((p ≡ b) × (q ≡ a)) → (p ≡ a) ⊎ (p ≡ b)
      first e = ground arith

      second : ((p ≡ a) × (q ≡ b)) ⊎ ((p ≡ b) × (q ≡ a)) → (q ≡ a) ⊎ (q ≡ b)
      second e = ground arith

      differ : ((p ≡ a) × (q ≡ b)) ⊎ ((p ≡ b) × (q ≡ a)) → p ≢ q
      differ (inl (e, f)) k = n (sym e ∙ k ∙ f)
      differ (inr (e, f)) k = n (sym f ∙ sym k ∙ e)

  normalize_pair_cases :
      (a b : String)
      → ((normalize_pair a b).0 ≡ a) × ((normalize_pair a b).1 ≡ b)
        ⊎ ((normalize_pair a b).0 ≡ b) × ((normalize_pair a b).1 ≡ a)
  unfolding normalize_pair
  normalize_pair_cases a b = ground arith

  one_of_two : (a b : String) (p : String) → (p ≡ a) ⊎ (p ≡ b) → IsKnown a → IsKnown b → IsKnown p
  one_of_two a b p (inl e) ka kb = subst IsKnown (sym e) ka
  one_of_two a b p (inr e) ka kb = subst IsKnown (sym e) kb

  -- With a repository that finds the direct rooms it has created, after a direct room has been
  -- created asking for it again, in either order of the users, finds the same room and creates
  -- none.
  pub ensure_direct_room_again :
      (a b : String) (r : Room) (w w' : W)
      → IsKnown (trim_space a)
      → IsKnown (trim_space b)
      → ensure_direct_room s a b w ≡ (ok (r, true), w')
      → ((ensure_direct_room s a b w').0 ≡ ok (stored r, false))
        × ((ensure_direct_room s b a w').0 ≡ ok (stored r, false))
  unfolding find_pair
  ensure_direct_room_again a b r w w' ka kb h =
      let v = valid_of_ok s a b w h in
      let ua = trim_space a in
      let ub = trim_space b in
      let m = find_pair s (normalize_pair ua ub) w in
      let made = created_of_true s ua ub m.0 m.1 (sym (ensure_valid s a b w v) ∙ h) in
      let n = normalize_pair ua ub in
      let found =
        found_after_create ua ub n.0 n.1 w m.1 (named_of_valid s a b v) (trim_space_idem b)
          (ne_of_valid s a b v) (normalize_pair_cases ua ub)
          (one_of_two ua ub n.0 (ground (arith, normalize_pair_cases ua ub)) ka kb)
          (one_of_two ua ub n.1 (ground (arith, normalize_pair_cases ua ub)) ka kb)
          (ap (λ x. (x, m.1)) (missing_of_true s ua ub m.0 m.1 (sym (ensure_valid s a b w v) ∙ h)))
          made in
      let again = ensure_found s a b w' v found in
      (
        again,
        ap (λ x. x.0)
            (ensure_direct_room_comm s a b (stored r) w' _
              (ap (λ x. (x, (ensure_direct_room s a b w').1)) again)),
      )
