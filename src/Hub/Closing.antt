-- ===== src/Hub/Closing.antt =====
-- A channel that the hub has closed stays closed, and what happens to a client that is closed and
-- not forgotten everywhere (internal/delivery/websocket/hub.go).
use chatter_stack.Base.{ℕ, ◌≡◌, true, List, [], ◌∷◌, arith}
use chatter_stack.Hub.{
  Client, Hub, Broadcast, done, panicked, bind-done, members, close, deliver, deliver_all,
  send_to_room, add_client, remove_client,
}
use chatter_stack.Hub.Loop.{Event, register, unregister, taken, broadcast, handle, serve, drain}

abbrev pub IsClosed : Hub → ℕ → Type 0
IsClosed h c = (h.channels c).closed ≡ true

pub deliver_keeps :
    (msg : Broadcast) (h h' : Hub) (c d : ℕ)
    → deliver msg h d ≡ done h'
    → IsClosed h c
    → IsClosed h' c
unfolding deliver
deliver_keeps msg h h' c d e k = ground arith

pub deliver_all_keeps :
    (msg : Broadcast) (h h' : Hub) (c : ℕ) (ds : List ℕ)
    → deliver_all msg h ds ≡ done h'
    → IsClosed h c
    → IsClosed h' c
unfolding deliver_all
deliver_all_keeps msg h h' c [] e k = ground arith
deliver_all_keeps msg h h' c (d ∷ ds) e k =
    let (h1, one, rest) = bind-done (deliver msg h d) (λ g. deliver_all msg g ds) e in
    deliver_all_keeps msg h1 h' c ds rest (deliver_keeps msg h h1 c d one k)

module _ (client : ℕ → Client) where
  handle_keeps :
      (h h' : Hub) (e : Event) (c : ℕ) → handle client h e ≡ done h' → IsClosed h c → IsClosed h' c
  unfolding handle
  handle_keeps h h' (register d) c e k = unfold add_client in ground arith
  handle_keeps h h' (unregister d) c e k = unfold remove_client in ground arith
  handle_keeps h h' (broadcast msg) c e k =
      unfold send_to_room in deliver_all_keeps msg h h' c (members msg.room_id h.rooms) e k
  handle_keeps h h' (taken d) c e k = unfold drain in ground arith

  serve_keeps :
      (h h' : Hub) (es : List Event) (c : ℕ)
      → serve client h es ≡ done h'
      → IsClosed h c
      → IsClosed h' c
  unfolding serve
  serve_keeps h h' [] c e k = ground arith
  serve_keeps h h' (v ∷ vs) c e k =
      let (h1, one, rest) = bind-done (handle client h v) (λ g. serve client g vs) e in
      serve_keeps h1 h' vs c rest (handle_keeps h h1 v c one k)

  remove_client_closes : (h h' : Hub) (c : ℕ) → remove_client client h c ≡ done h' → IsClosed h' c
  unfolding remove_client
  remove_client_closes h h' c e = ground arith

  -- If a client is unregistered and, after any events that do not panic, unregistered again, the
  -- hub panics.
  pub unregister_twice :
      (h h1 h2 : Hub) (c : ℕ) (es : List Event)
      → handle client h (unregister c) ≡ done h1
      → serve client h1 es ≡ done h2
      → handle client h2 (unregister c) ≡ panicked
  unfolding handle
  unregister_twice h h1 h2 c es first between =
      let k = serve_keeps h1 h2 es c between (remove_client_closes h h1 c first) in
      unfold remove_client close in rw k
