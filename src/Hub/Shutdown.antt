-- ===== src/Hub/Shutdown.antt =====
-- `shutdown` of internal/delivery/websocket/hub.go closes every client and leaves the index by user
-- as it was.
use chatter_stack.Base.{
  ℕ, String, ◌≡◌, ◌∙◌, true, List, [], ◌∷◌, arith, ◌==◌, ==_iff, Bool-cases, inl, inr,
}
use chatter_stack.Hub.Sets.{mem}
use chatter_stack.Hub.{
  Hub, done, panicked, bind-done, bind-panicked, members, close, offer, post_sent, post_all,
  send_to_user, close_all, shutdown,
}
use chatter_stack.Hub.Closing.{IsClosed}
use chatter_stack.Hub.Crashes.{post_sent_keeps}

post_sent_on_closed :
    (h : Hub) (u bytes : String) (c d : ℕ)
    → d ≡ c
    → IsClosed h c
    → post_sent h u d bytes (offer h d) ≡ panicked
unfolding post_sent offer
post_sent_on_closed h u bytes c d e k = ground arith

post_all_panics :
    (h : Hub) (u bytes : String) (c : ℕ) (ds : List ℕ)
    → mem c ds ≡ true
    → IsClosed h c
    → post_all u bytes h ds ≡ panicked
unfolding post_all mem
post_all_panics h u bytes c [] m k = cc
post_all_panics h u bytes c (d ∷ ds) m k = elim (Bool-cases (d == c)) [
  | inl e ↦ rw (post_sent_on_closed h u bytes c d ((==_iff d c).0 e) k)
  | inr e ↦
      bind-panicked (post_sent h u d bytes (offer h d)) (λ g. post_all u bytes g ds)
        (λ g q. post_all_panics g u bytes c ds (ground arith) (post_sent_keeps h g u c d bytes q k))
]

close_keeps : (h h' : Hub) (c d : ℕ) → close h d ≡ done h' → IsClosed h c → IsClosed h' c
unfolding close
close_keeps h h' c d e k = ground arith

close_closes : (h h' : Hub) (c d : ℕ) → d ≡ c → close h d ≡ done h' → IsClosed h' c
unfolding close
close_closes h h' c d s e = ground arith

close_users : (h h' : Hub) (d : ℕ) → close h d ≡ done h' → h'.users ≡ h.users
unfolding close
close_users h h' d e = ground arith

close_all_keeps :
    (h h' : Hub) (c : ℕ) (ds : List ℕ) → close_all h ds ≡ done h' → IsClosed h c → IsClosed h' c
unfolding close_all
close_all_keeps h h' c [] e k = ground arith
close_all_keeps h h' c (d ∷ ds) e k =
    let (g, one, rest) = bind-done (close h d) (λ g. close_all g ds) e in
    close_all_keeps g h' c ds rest (close_keeps h g c d one k)

close_all_users : (h h' : Hub) (ds : List ℕ) → close_all h ds ≡ done h' → h'.users ≡ h.users
unfolding close_all
close_all_users h h' [] e = ground arith
close_all_users h h' (d ∷ ds) e =
    let (g, one, rest) = bind-done (close h d) (λ g. close_all g ds) e in
    close_all_users g h' ds rest ∙ close_users h g d one

close_all_closes :
    (h h' : Hub) (c : ℕ) (ds : List ℕ) → close_all h ds ≡ done h' → mem c ds ≡ true → IsClosed h' c
unfolding close_all mem
close_all_closes h h' c [] e m = cc
close_all_closes h h' c (d ∷ ds) e m =
    let (g, one, rest) = bind-done (close h d) (λ g. close_all g ds) e in
    elim (Bool-cases (d == c)) [
      | inl same ↦ close_all_keeps g h' c ds rest (close_closes h g c d ((==_iff d c).0 same) one)
      | inr other ↦ close_all_closes g h' c ds rest (ground arith)
    ]

-- After a shutdown `SendToUser` panics for every user that had a client connected.
pub send_to_user_after_shutdown :
    (h h' : Hub) (u bytes : String) (c : ℕ)
    → mem c h.clients ≡ true
    → mem c (members u h.users) ≡ true
    → shutdown h ≡ done h'
    → send_to_user h' u bytes ≡ panicked
unfolding shutdown send_to_user
send_to_user_after_shutdown h h' u bytes c m k e =
    let (g, closed, last) =
      bind-done (close_all h h.clients) (λ g. done (record g { clients = []; rooms = [] })) e in
    post_all_panics h' u bytes c (members u h'.users)
      (ground (arith, close_all_users h g h.clients closed))
      (ground (arith, close_all_closes h g c h.clients closed m))
