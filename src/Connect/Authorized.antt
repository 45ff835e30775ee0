-- ===== src/Connect/Authorized.antt =====
-- What a websocket that is connected through cmd/server/main.go has shown.
use chatter_stack.Base.{
  String, ◌≡◌, sym, ap, ◌∙◌, ◌&&◌, some, List, [], ◌∷◌, arith, inl, inr, eqb, trim_space,
  Bool-cases,
}
use chatter_stack.Exec.{Result, ok, err, Exec, Result-cases}
use chatter_stack.Models.{User}
use chatter_stack.Auth
use chatter_stack.Auth.Keys.{access_key}
use chatter_stack.Auth.Cache.{View, IsWorld}
use chatter_stack.Auth.Login.{validated_is_stored}
use chatter_stack.Users
use chatter_stack.Rooms
use chatter_stack.Client.{is_member, authorizes, filter_authorized_rooms}
use chatter_stack.Client.Membership.{authorized_rooms}
use chatter_stack.Connect.{
  connected, request_token, with_profile, upgraded, into_rooms, choose_rooms, validated, connect,
}

module _ {W : Type 0} (auth : Auth.Service W) (users : Users.Service W) (rooms : Rooms.Service W)
    (upgrade : Exec W (Unit {0})) where
  with_profile-connected :
      (id id' : String) (allowed allowed' : List String) (name : String) (r : Result User)
      → with_profile auth users rooms upgrade id allowed r ≡ connected id' allowed' name
      → (id ≡ id') × (allowed ≡ allowed')
  unfolding with_profile
  with_profile-connected id id' allowed allowed' name (ok u) h = (ground arith, ground arith)
  with_profile-connected id id' allowed allowed' name (err e) h = cc

  upgraded-connected :
      (id id' : String) (allowed allowed' : List String) (name : String) (r : Result (Unit {0}))
      (w w' : W)
      → upgraded auth users rooms upgrade id allowed r w ≡ (connected id' allowed' name, w')
      → (id ≡ id') × (allowed ≡ allowed')
  unfolding upgraded
  upgraded-connected id id' allowed allowed' name (ok u) w w' h =
      with_profile-connected id id' allowed allowed' name (Users.get_by_id users id w).0
        (ap (λ x. x.0) h)
  upgraded-connected id id' allowed allowed' name (err e) w w' h = cc

  into_rooms-connected :
      (id id' : String) (allowed allowed' : List String) (name : String) (w w' : W)
      → into_rooms auth users rooms upgrade id allowed w ≡ (connected id' allowed' name, w')
      → (id ≡ id') × (allowed ≡ allowed')
  unfolding into_rooms
  into_rooms-connected id id' [] allowed' name w w' h = cc
  into_rooms-connected id id' (r ∷ allowed) allowed' name w w' h =
      upgraded-connected id id' (r ∷ allowed) allowed' name (upgrade w).0 (upgrade w).1 w' h

  choose_rooms-connected :
      (id id' : String) (raw allowed' : List String) (name : String) (w w' : W)
      → choose_rooms auth users rooms upgrade id raw w ≡ (connected id' allowed' name, w')
      → (id ≡ id') × ((filter_authorized_rooms (Rooms.list_members rooms) id raw w).0 ≡ allowed')
  unfolding choose_rooms
  choose_rooms-connected id id' [] allowed' name w w' h = cc
  choose_rooms-connected id id' (r ∷ raw) allowed' name w w' h =
      let kept = filter_authorized_rooms (Rooms.list_members rooms) id (r ∷ raw) w in
      into_rooms-connected id id' kept.0 allowed' name kept.1 w' h

  -- With a cache and repositories that do what the authentication relies on, and with lists of
  -- members that do not depend on which list was asked for before, a websocket is connected for a
  -- user only if the token of its request, trimmed, stands in the cache as an access token of
  -- that user, and its rooms are those of the request whose members can be listed and have the
  -- user among them.
  pub connected_is_authorized :
      {view : View W} (world : IsWorld view auth) (header query : String)
      (raw allowed : List String) (id name room_id : String) (w w' : W)
      → ((q r : String) (v : W)
          → (Rooms.list_members rooms r (Rooms.list_members rooms q v).1).0
            ≡ (Rooms.list_members rooms r v).0)
      → connect auth users rooms upgrade header query raw w ≡ (connected id allowed name, w')
      → (view w (access_key (trim_space (request_token header query))) ≡ some id)
        × (is_member allowed room_id ≡ (
            is_member raw room_id
            && authorizes id
                (Rooms.list_members rooms room_id
                  (Auth.validate_access_token auth (request_token header query) w).1).0))
  unfolding connect validated
  connected_is_authorized world header query raw allowed id name room_id w w' still h =
      let token = request_token header query in
      let w1 = (Auth.validate_access_token auth token w).1 in
      elim (Bool-cases (eqb token "")) [
        | inl e ↦ absurd (ground (arith, rw e at h))
        | inr e ↦ elim (Result-cases (Auth.validate_access_token auth token w).0) [
          | inr (x, f) ↦ absurd (ground (arith, rw (e, f) at h))
          | inl (user, f) ↦
              let (same, kept) =
                choose_rooms-connected user id raw allowed name w1 w' (rw (e, f) at h) in
              (
                validated_is_stored auth world token user w w1 (ap (λ x. (x, w1)) f) ∙ ap some same,
                ap (λ l. is_member l room_id) (sym kept)
                    ∙ authorized_rooms (Rooms.list_members rooms) user raw w1 still room_id
                    ∙ ap
                        (λ i.
                          is_member raw room_id
                          && authorizes i (Rooms.list_members rooms room_id w1).0)
                        same,
              )
        ]
      ]
