-- ===== src/Messages/Owner.antt =====
-- Who may edit and delete a message, in internal/domain/messages/service_impl.go.
use chatter_stack.Base.{
  String, ◌≡◌, ◌≢◌, refl, ap, subst, ◌∙◌, eqb, Bool-cases, false, arith, eq_iff, inl, inr,
  trim_space,
}
use chatter_stack.Errors.{message, MessageError, edit_not_allowed, no_rows, message_not_found}
use chatter_stack.Exec.{Result-cases, ok, err, pure, >>=-ok, ◌>>=◌, ◌>>◌}
use chatter_stack.Models.{Message}
use chatter_stack.Messages.{
  Service, RoomEvent, changed, deleted, is_blank, publish_room_event, edit, delete,
}

module _ {W : Type 0} (s : Service W) where
  open s use {repo}

  told-ok :
      (r : String) (e : RoomEvent) (m m' : Message) (w w' : W)
      → (publish_room_event s s.pub_sub r e >> pure m) w ≡ (ok m', w')
      → (m ≡ m') × (publish_room_event s s.pub_sub r e w ≡ (ok tt, w'))
  told-ok r e m m' w w' h =
      let (u, told, same) = >>=-ok (publish_room_event s s.pub_sub r e) (λ u. pure m) w h in
      (ground arith, ground arith)

  stored-ok :
      (id content : String) (m : Message) (w w' : W)
      → (repo.update_content id content >>= λ updated.
            (publish_room_event s s.pub_sub updated.room_id (changed updated) >> pure updated))
          w
        ≡ (ok m, w')
      → (w1 : W) × (repo.update_content id content w ≡ (ok m, w1))
        × (publish_room_event s s.pub_sub m.room_id (changed m) w1 ≡ (ok tt, w'))
  stored-ok id content m w w' h =
      let (m', stored, rest) =
        >>=-ok (repo.update_content id content)
          (λ updated.
            publish_room_event s s.pub_sub updated.room_id (changed updated) >> pure updated)
          w h in
      let w1 = (repo.update_content id content w).1 in
      let (same, told) = told-ok m'.room_id (changed m') m' m w1 w' rest in
      (
        w1,
        ground arith,
        subst (λ x. publish_room_event s s.pub_sub x.room_id (changed x) w1 ≡ (ok tt, w')) same
            told,
      )

  edit_full :
      (id user content : String) (w : W) (m : Message) {w' : W}
      → edit s id user content w ≡ (ok m, w')
      → trim_space content ≢ ""
  unfolding edit
  edit_full id user content w m h empty = elim (Bool-cases (eqb (trim_space id) "")) [
    | inl e ↦ absurd (ground (arith, rw e at h))
    | inr e ↦ elim (Bool-cases (eqb (trim_space user) "")) [
      | inl f ↦ absurd (ground (arith, rw (e, f) at h))
      | inr f ↦ absurd (ground (arith, rw (e, f, empty) at h))
    ]
  ]

  -- `Edit` succeeds only if the trimmed content is not empty and the look-up of the trimmed id
  -- finds a message that the trimmed user has sent. Then the repository has stored the trimmed
  -- content under that id, and the room of the stored message has been told of it.
  pub edit_by_sender :
      (id user content : String) (w w' : W) (m : Message)
      → edit s id user content w ≡ (ok m, w')
      → (trim_space content ≢ "")
        × (old : Message) × ((repo.get_by_id (trim_space id) w).0 ≡ ok old)
        × (old.sender_id ≡ trim_space user)
        × (w1 : W) × (repo.update_content
              (trim_space id)
              (trim_space content)
              (repo.get_by_id (trim_space id) w).1
            ≡ (ok m, w1))
        × (publish_room_event s s.pub_sub m.room_id (changed m) w1 ≡ (ok tt, w'))
  unfolding edit
  edit_by_sender id user content w w' m h =
      elim (Result-cases (repo.get_by_id (trim_space id) w).0) [
        | inr (e, f) ↦ absurd (ground arith)
        | inl (old, found) ↦
            let w0 = (repo.get_by_id (trim_space id) w).1 in
            let (w1, stored, told) =
              stored-ok (trim_space id) (trim_space content) m w0 w' (ground arith) in
            (
              edit_full id user content w m h,
              old,
              found,
              ground (arith, eq_iff old.sender_id (trim_space user)),
              w1,
              stored,
              told,
            )
      ]

  -- `Delete` of a message succeeds only if the look-up of the trimmed id finds a message that the
  -- trimmed user has sent. Then the repository has deleted that id, the room of the message has
  -- been told of it, and the message is the result.
  pub delete_by_sender :
      (id user : String) (w w' : W) (m : Message)
      → delete s id user w ≡ (ok m, w')
      → ((repo.get_by_id (trim_space id) w).0 ≡ ok m)
        × (m.sender_id ≡ trim_space user)
        × (w1 : W) × (repo.delete (trim_space id) (repo.get_by_id (trim_space id) w).1
            ≡ (ok tt, w1))
        × (publish_room_event s s.pub_sub m.room_id (deleted m.id m.room_id) w1 ≡ (ok tt, w'))
  unfolding delete
  delete_by_sender id user w w' m h = elim (Result-cases (repo.get_by_id (trim_space id) w).0) [
    | inr (e, f) ↦ absurd (ground arith)
    | inl (old, found) ↦
        let w0 = (repo.get_by_id (trim_space id) w).1 in
        elim (Result-cases (repo.delete (trim_space id) w0).0) [
          | inr (e, f) ↦ absurd (ground arith)
          | inl (u, gone) ↦
              let w1 = (repo.delete (trim_space id) w0).1 in
              let (same, told) =
                told-ok old.room_id (deleted old.id old.room_id) old m w1 w' (ground arith) in
              (
                found ∙ ap ok same,
                ground (arith, eq_iff old.sender_id (trim_space user)),
                w1,
                ground arith,
                subst
                    (λ x.
                      publish_room_event s s.pub_sub x.room_id (deleted x.id x.room_id) w1
                      ≡ (ok tt, w'))
                    same told,
              )
        ]
  ]

  -- For an id, a user and a content that are not blank, `Edit` and `Delete` of a message that
  -- somebody else has sent are refused, and nothing but the look-up has been done.
  pub others_refused :
      (id user content : String) (m : Message) (w : W)
      → is_blank id ≡ false
      → is_blank user ≡ false
      → is_blank content ≡ false
      → (repo.get_by_id (trim_space id) w).0 ≡ ok m
      → m.sender_id ≢ trim_space user
      → (edit s id user content w
          ≡ (err (message edit_not_allowed), (repo.get_by_id (trim_space id) w).1))
        × (delete s id user w
            ≡ (err (message MessageError.delete_not_allowed), (repo.get_by_id (trim_space id) w).1))
  unfolding edit delete
  others_refused id user content m w h k l found n = (
    ground (arith, eq_iff m.sender_id (trim_space user)),
    ground (arith, eq_iff m.sender_id (trim_space user)),
  )

  -- The look-up of a message that is not there.
  pub change_missing :
      (id user content : String) (w : W)
      → is_blank id ≡ false
      → is_blank user ≡ false
      → is_blank content ≡ false
      → (repo.get_by_id (trim_space id) w).0 ≡ err no_rows
      → ((edit s id user content w).0 ≡ err (message message_not_found))
        × ((delete s id user w).0 ≡ err (message message_not_found))
  unfolding edit delete
  change_missing id user content w h k l missing =
      (rw (h, k, l, missing) refl, rw (h, k, missing) refl)
