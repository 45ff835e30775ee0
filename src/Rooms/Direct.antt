-- ===== src/Rooms/Direct.antt =====
-- Direct rooms: `EnsureDirectRoom` of
-- internal/domain/rooms/service_impl.go.
use chatter_stack.Base.{
  ◌∙◌, ne_of_eqb, String, ◌≡◌, ◌≢◌, ap, inl, inr, Bool-cases, refl, sym, Bool, true, false, ◌||◌,
  arith, eqb, eq_iff, trim_space, less_swap,
}
use chatter_stack.Errors.{Error, no_rows, is_no_rows}
use chatter_stack.Exec.{Result, ok, err}
use chatter_stack.Models.{Room}
use chatter_stack.Rooms.{
  Service, normalize_pair, direct_input, create, found_or_create, find_pair, ensure_direct_room,
}

normalize_pair_comm : (a b : String) → a ≢ b → normalize_pair a b ≡ normalize_pair b a
unfolding normalize_pair
normalize_pair_comm a b h = ground (arith, less_swap a b h)

module _ {W : Type 0} (s : Service W) where
  pub IsValidPair : String → String → Type 0
  IsValidPair a b =
      ((eqb (trim_space a) "" || eqb (trim_space b) "") ≡ false)
      × (eqb (trim_space a) (trim_space b) ≡ false)

  pub ensure_valid :
      (a b : String) (w : W)
      → IsValidPair a b
      → ensure_direct_room s a b w ≡ (
          let m = find_pair s (normalize_pair (trim_space a) (trim_space b)) w in
          found_or_create s (trim_space a) (trim_space b) m.0 m.1)
  unfolding ensure_direct_room IsValidPair
  ensure_valid a b w (h, k) = rw (h, k)

  pub valid_of_ok :
      (a b : String) (w : W) {x : Room × Bool} {w' : W}
      → ensure_direct_room s a b w ≡ (ok x, w')
      → IsValidPair a b
  unfolding ensure_direct_room IsValidPair
  valid_of_ok a b w h = (ground arith, ground arith)

  pub created_of_true :
      (a b : String) (f : Result Room) (w : W) {r : Room} {w' : W}
      → found_or_create s a b f w ≡ (ok (r, true), w')
      → create s (direct_input a b (normalize_pair a b)) w ≡ (ok r, w')
  unfolding found_or_create
  created_of_true a b (ok r) w h = cc
  created_of_true a b (err e) w h = ground arith

  no_rows_of_test : (e : Error) → is_no_rows e ≡ true → e ≡ no_rows
  no_rows_of_test e h = ground arith

  -- A room is only created when there was none.
  pub missing_of_true :
      (a b : String) (f : Result Room) (w : W) {r : Room} {w' : W}
      → found_or_create s a b f w ≡ (ok (r, true), w')
      → f ≡ err no_rows
  unfolding found_or_create
  missing_of_true a b (ok r) w h = cc
  missing_of_true a b (err e) w h = elim (Bool-cases (is_no_rows e)) [
    | inl k ↦ ap err (no_rows_of_test e k)
    | inr k ↦ absurd (ground (arith, rw k at h))
  ]

  found_of_false :
      (a b : String) (f : Result Room) (w : W) {r : Room} {w' : W}
      → found_or_create s a b f w ≡ (ok (r, false), w')
      → (f ≡ ok r) × (w ≡ w')
  unfolding found_or_create
  found_of_false a b (ok r) w h = (cc, cc)
  found_of_false a b (err e) w h = ground arith

  valid_comm : (a b : String) → IsValidPair a b → IsValidPair b a
  unfolding IsValidPair
  valid_comm a b (h, k) = (
    ground arith,
    ground (arith, eq_iff (trim_space a) (trim_space b), eq_iff (trim_space b) (trim_space a)),
  )

  pub ne_of_valid : (a b : String) → IsValidPair a b → trim_space a ≢ trim_space b
  unfolding IsValidPair
  ne_of_valid a b v = ne_of_eqb (trim_space a) (trim_space b) v.1

  pub named_of_valid : (a b : String) → IsValidPair a b → eqb (trim_space b) "" ≡ false
  unfolding IsValidPair
  named_of_valid a b v = ground arith

  pub ensure_found :
      (a b : String) (w : W) {r : Room}
      → IsValidPair a b
      → (find_pair s (normalize_pair (trim_space a) (trim_space b)) w).0 ≡ ok r
      → (ensure_direct_room s a b w).0 ≡ ok (r, false)
  ensure_found a b w v e = rw (ensure_valid a b w v) (rw e (unfold found_or_create in refl))

  -- A direct room that is there is found in either order of its users.
  pub ensure_direct_room_comm :
      (a b : String) (r : Room) (w w' : W)
      → ensure_direct_room s a b w ≡ (ok (r, false), w')
      → ensure_direct_room s b a w ≡ (ok (r, false), w')
  ensure_direct_room_comm a b r w w' h =
      let v = valid_of_ok a b w h in
      let m = find_pair s (normalize_pair (trim_space a) (trim_space b)) w in
      let (found, same) =
        found_of_false (trim_space a) (trim_space b) m.0 m.1 (sym (ensure_valid a b w v) ∙ h) in
      rw
        (
          ensure_valid b a w (valid_comm a b v),
          normalize_pair_comm (trim_space b) (trim_space a) (ne_of_valid b a (valid_comm a b v)),
        )
        (rw (found, same) (unfold found_or_create in refl))
