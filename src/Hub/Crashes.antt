-- ===== src/Hub/Crashes.antt =====
-- A client whose channel is closed and that stands in the index by room all the same: `SendToUser`
-- of internal/delivery/websocket/hub.go leaves such a client behind.
use chatter_stack.Base.{
  ℕ, String, ◌≡◌, ◌∙◌, true, false, List, [], ◌∷◌, ltb, arith, ◌==◌, ==_iff, length, Bool-cases,
  inl, inr,
}
use chatter_stack.Hub.Sets.{mem}
use chatter_stack.Hub.{
  Hub, Broadcast, done, panicked, bind-done, bind-panicked, send_buffer, members, offer,
  is_excluded, deliver, deliver_all, send_to_room, post_sent, post_all, send_to_user,
}
use chatter_stack.Hub.Closing.{IsClosed, deliver_keeps}

IsFull : Hub → ℕ → Type 0
IsFull h c = ltb (length (h.channels c).queue) send_buffer ≡ false

deliver_closed :
    (msg : Broadcast) (h : Hub) (c d : ℕ)
    → d ≡ c
    → is_excluded msg.exclude c ≡ false
    → IsClosed h c
    → deliver msg h d ≡ panicked
unfolding deliver
deliver_closed msg h c d e x k = ground arith

-- Whoever else is in the list, a closed client that is not excluded stops the loop.
deliver_all_panics :
    (msg : Broadcast) (h : Hub) (c : ℕ) (ds : List ℕ)
    → mem c ds ≡ true
    → is_excluded msg.exclude c ≡ false
    → IsClosed h c
    → deliver_all msg h ds ≡ panicked
unfolding deliver_all mem
deliver_all_panics msg h c [] m x k = cc
deliver_all_panics msg h c (d ∷ ds) m x k = elim (Bool-cases (d == c)) [
  | inl e ↦ rw (deliver_closed msg h c d ((==_iff d c).0 e) x k)
  | inr e ↦
      bind-panicked (deliver msg h d) (λ g. deliver_all msg g ds)
        (λ g q. deliver_all_panics msg g c ds (ground arith) x (deliver_keeps msg h g c d q k))
]

-- One round of `SendToUser` for another client leaves the channel of `c` alone.
post_sent_frame :
    (h h' : Hub) (u : String) (c d : ℕ) (bytes : String)
    → (d == c) ≡ false
    → post_sent h u d bytes (offer h d) ≡ done h'
    → h'.channels c ≡ h.channels c
unfolding post_sent offer
post_sent_frame h h' u c d bytes n e = ground arith

post_sent_rooms :
    (h h' : Hub) (u : String) (d : ℕ) (bytes : String)
    → post_sent h u d bytes (offer h d) ≡ done h'
    → h'.rooms ≡ h.rooms
unfolding post_sent offer
post_sent_rooms h h' u d bytes e = ground arith

pub post_sent_keeps :
    (h h' : Hub) (u : String) (c d : ℕ) (bytes : String)
    → post_sent h u d bytes (offer h d) ≡ done h'
    → IsClosed h c
    → IsClosed h' c
unfolding post_sent offer
post_sent_keeps h h' u c d bytes e k = ground arith

post_sent_closes :
    (h h' : Hub) (u : String) (c d : ℕ) (bytes : String)
    → d ≡ c
    → IsFull h c
    → post_sent h u d bytes (offer h d) ≡ done h'
    → IsClosed h' c
unfolding post_sent offer IsFull
post_sent_closes h h' u c d bytes n f e = ground arith

pub post_all_keeps :
    (h h' : Hub) (u bytes : String) (c : ℕ) (ds : List ℕ)
    → post_all u bytes h ds ≡ done h'
    → IsClosed h c
    → IsClosed h' c
unfolding post_all
post_all_keeps h h' u bytes c [] e k = ground arith
post_all_keeps h h' u bytes c (d ∷ ds) e k =
    let (g, one, rest) =
      bind-done (post_sent h u d bytes (offer h d)) (λ g. post_all u bytes g ds) e in
    post_all_keeps g h' u bytes c ds rest (post_sent_keeps h g u c d bytes one k)

post_all_rooms :
    (h h' : Hub) (u bytes : String) (ds : List ℕ)
    → post_all u bytes h ds ≡ done h'
    → h'.rooms ≡ h.rooms
unfolding post_all
post_all_rooms h h' u bytes [] e = ground arith
post_all_rooms h h' u bytes (d ∷ ds) e =
    let (g, one, rest) =
      bind-done (post_sent h u d bytes (offer h d)) (λ g. post_all u bytes g ds) e in
    post_all_rooms g h' u bytes ds rest ∙ post_sent_rooms h g u d bytes one

post_all_closes :
    (h h' : Hub) (u bytes : String) (c : ℕ) (ds : List ℕ)
    → post_all u bytes h ds ≡ done h'
    → mem c ds ≡ true
    → IsFull h c
    → IsClosed h' c
unfolding post_all mem IsFull
post_all_closes h h' u bytes c [] e m f = cc
post_all_closes h h' u bytes c (d ∷ ds) e m f =
    let (g, one, rest) =
      bind-done (post_sent h u d bytes (offer h d)) (λ g. post_all u bytes g ds) e in
    elim (Bool-cases (d == c)) [
      | inl same ↦
          post_all_keeps g h' u bytes c ds rest
            (post_sent_closes h g u c d bytes ((==_iff d c).0 same) f one)
      | inr other ↦
          post_all_closes g h' u bytes c ds rest (ground arith)
            (rw (post_sent_frame h g u c d bytes other one) f)
    ]

-- If `SendToUser` meets a client of the user whose buffer is full, the next broadcast to a room
-- in which the client stands, and from which it is not excluded, panics.
pub full_user_client_crashes :
    (h h' : Hub) (u bytes : String) (c : ℕ) (msg : Broadcast)
    → mem c (members u h.users) ≡ true
    → ltb (length (h.channels c).queue) send_buffer ≡ false
    → send_to_user h u bytes ≡ done h'
    → mem c (members msg.room_id h.rooms) ≡ true
    → is_excluded msg.exclude c ≡ false
    → send_to_room h' msg ≡ panicked
unfolding send_to_user send_to_room IsFull
full_user_client_crashes h h' u bytes c msg m f e r x =
    let ds = members u h.users in
    deliver_all_panics msg h' c (members msg.room_id h'.rooms)
      (rw (post_all_rooms h h' u bytes ds e) r) x (post_all_closes h h' u bytes c ds e m f)
