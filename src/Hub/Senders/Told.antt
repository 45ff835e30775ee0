-- ===== src/Hub/Senders/Told.antt =====
-- `SendToUser` of internal/delivery/websocket/hub.go, when it has closed no channel.
use chatter_stack.Base.{
  ℕ, ◌≡◌, refl, ◌∙◌, String, false, List, [], ◌∷◌, Bool-cases, inl, inr, arith,
}
use chatter_stack.Hub.{Hub, done, bind-done, offer, post_sent, post_all, members, send_to_user}
use chatter_stack.Hub.Closing.{IsClosed}
use chatter_stack.Hub.Crashes.{post_all_keeps}

-- Two hubs that differ in what waits in the channels at most.
pub record IsLike (h h' : Hub) : Type 0 where
  pub clients : h'.clients ≡ h.clients
  pub rooms : h'.rooms ≡ h.rooms
  pub users : h'.users ≡ h.users
  pub closed : (c : ℕ) → (h'.channels c).closed ≡ (h.channels c).closed

-- Whoever was not closed before is not closed afterwards.
abbrev pub ClosesNothing : Hub → Hub → Type 0
ClosesNothing h h' = (c : ℕ) → IsClosed h' c → IsClosed h c

post_sent_was_open :
    (h g : Hub) (u bytes : String) (d : ℕ)
    → post_sent h u d bytes (offer h d) ≡ done g
    → (h.channels d).closed ≡ false
unfolding post_sent offer
post_sent_was_open h g u bytes d e = ground arith

post_sent-IsLike :
    (h g : Hub) (u bytes : String) (d : ℕ)
    → post_sent h u d bytes (offer h d) ≡ done g
    → (g.channels d).closed ≡ false
    → IsLike h g
unfolding post_sent offer
post_sent-IsLike h g u bytes d e o = record {
  clients = ground arith;
  rooms = ground arith;
  users = ground arith;
  closed = λ c. ground arith;
}

post_all-IsLike :
    (h h' : Hub) (u bytes : String) (ds : List ℕ)
    → post_all u bytes h ds ≡ done h'
    → ClosesNothing h h'
    → IsLike h h'
unfolding post_all
post_all-IsLike h h' u bytes [] e k =
    let same : h ≡ h' = cc in
    rw (← same) (record { clients = refl; rooms = refl; users = refl; closed = λ c. refl })
post_all-IsLike h h' u bytes (d ∷ ds) e k =
    let (g, one, rest) =
      bind-done (post_sent h u d bytes (offer h d)) (λ g. post_all u bytes g ds) e in
    let was_open = post_sent_was_open h g u bytes d one in
    let still_open : (g.channels d).closed ≡ false = elim (Bool-cases (g.channels d).closed) [
      | inl c ↦ let again = k d (post_all_keeps g h' u bytes d ds rest c) in cc
      | inr o ↦ o
    ] in
    let first = post_sent-IsLike h g u bytes d one still_open in
    let then_rest = post_all-IsLike g h' u bytes ds rest (λ c q. first.closed c ∙ k c q) in
    record {
      clients = then_rest.clients ∙ first.clients;
      rooms = then_rest.rooms ∙ first.rooms;
      users = then_rest.users ∙ first.users;
      closed = λ c. then_rest.closed c ∙ first.closed c;
    }

pub send_to_user-IsLike :
    (h h' : Hub) (u bytes : String)
    → send_to_user h u bytes ≡ done h'
    → ClosesNothing h h'
    → IsLike h h'
unfolding send_to_user
send_to_user-IsLike h h' u bytes e k = post_all-IsLike h h' u bytes (members u h.users) e k
