-- ===== src/Hub/Senders/Placed.antt =====
-- Where a client stands in the hub at each stage of its handler, and that what the handler sends keeps
-- this (internal/delivery/websocket/hub.go).
use chatter_stack.Base.{
  ℕ, ◌≡◌, refl, sym, ◌∙◌, ap, subst, true, false, some, List, [], ◌∷◌, ◌==◌, ==_iff, Bool-cases,
  inl, inr, arith,
}
use chatter_stack.Hub.Sets.{mem, mem-insert}
use chatter_stack.Hub.{Client, Hub, Broadcast, done, update, add_client}
use chatter_stack.Hub.Loop.{Event, register, unregister, broadcast, handle, drain, IsSound}
use chatter_stack.Hub.Safety.{
  unregister_disconnects, add_client-IsSound, handle-IsSound, send_to_room-IsSound,
}
use chatter_stack.Hub.Senders.{Stage, entering, reading, finished, sends, next, State, set_stage}

-- What holds of a client at a stage of its handler.
abbrev pub IsPlaced : Hub → ℕ → Stage → Type 0
IsPlaced h c (entering list) = (mem c h.clients ≡ false) × ((h.channels c).closed ≡ false)
IsPlaced h c (reading list) = mem c h.clients ≡ true
IsPlaced h c finished = mem c h.clients ≡ false

done-inj : {h h' : Hub} → done h ≡ done h' → h ≡ h'
done-inj e = cc

-- Nothing that a place depends on has changed.
pub IsPlaced-same :
    (h h' : Hub) (c : ℕ) (stage : Stage)
    → mem c h'.clients ≡ mem c h.clients
    → (h'.channels c).closed ≡ (h.channels c).closed
    → IsPlaced h c stage
    → IsPlaced h' c stage
IsPlaced-same h h' c (entering list) m k p = (m ∙ p.0, k ∙ p.1)
IsPlaced-same h h' c (reading list) m k p = m ∙ p
IsPlaced-same h h' c finished m k p = m ∙ p

pub took_mem : (h : Hub) (c d : ℕ) → mem d (drain h c).clients ≡ mem d h.clients
unfolding drain
took_mem h c d = refl

pub took_closed : (h : Hub) (c d : ℕ) → ((drain h c).channels d).closed ≡ (h.channels d).closed
unfolding drain update
took_closed h c d = ground arith

pub some-inj : {e e' : Event} → some e ≡ some e' → e ≡ e'
some-inj p = cc

module _ (client : ℕ → Client) where
  pub record IsSafe (s : State) : Type 0 where
    pub sound : IsSound client s.hub
    pub placed : (c : ℕ) → IsPlaced s.hub c (s.stages c)

  -- The hub after what one handler sends, given how it looks for that client and for the others.
  IsSafe-received :
      (s : State) (h' : Hub) (c : ℕ) (stage : Stage)
      → IsSafe s
      → IsSound client h'
      → IsPlaced h' c stage
      → ((d : ℕ)
          → (d == c) ≡ false
          → (mem d h'.clients ≡ mem d s.hub.clients)
            × ((h'.channels d).closed ≡ (s.hub.channels d).closed))
      → IsSafe (record { hub = h'; running = true; stages = set_stage s.stages c stage })
  unfolding set_stage
  IsSafe-received s h' c stage v sound own others = record {
    sound = sound;
    placed = λ d. elim (Bool-cases (d == c)) [
      | inl e ↦ rw (e, (==_iff d c).0 e) own
      | inr e ↦
          let (m, k) = others d e in rw e (IsPlaced-same s.hub h' d (s.stages d) m k (v.placed d))
    ];
  }

  pub broadcast_keeps :
      (h h' : Hub) (b : Broadcast)
      → IsSound client h
      → handle client h (broadcast b) ≡ done h'
      → IsSound client h'
        × ((d : ℕ)
            → (mem d h'.clients ≡ mem d h.clients)
              × ((h'.channels d).closed ≡ (h.channels d).closed))
  unfolding handle
  broadcast_keeps h h' b v e =
      let (g, e', d, v') = send_to_room-IsSound client h b v in
      let same : g ≡ h' = done-inj (sym e' ∙ e) in
      rw (← same) (v', λ c. (rw d.clients refl, ground (arith, d.channels c)))

  pub IsPlaced-at :
      {s : State} (c : ℕ) (stage : Stage) → IsSafe s → s.stages c ≡ stage → IsPlaced s.hub c stage
  IsPlaced-at {s} c stage v at = subst (IsPlaced s.hub c) at (v.placed c)

  after_register :
      (s : State) (h' : Hub) (c : ℕ) (list : List Broadcast)
      → IsSafe s
      → s.stages c ≡ entering list
      → handle client s.hub (register c) ≡ done h'
      → IsSafe (record { hub = h'; running = true; stages = set_stage s.stages c (reading list) })
  unfolding handle add_client
  after_register s h' c list v at e =
      let same : add_client client s.hub c ≡ h' = done-inj e in
      rw (← same) (
        IsSafe-received s (add_client client s.hub c) c (reading list) v
          (add_client-IsSound client s.hub c v.sound (IsPlaced-at c (entering list) v at).1)
          (ground (arith, mem-insert c c s.hub.clients))
          (λ d o. (ground (arith, mem-insert c d s.hub.clients), refl)))

  after_unregister :
      (s : State) (h' : Hub) (c : ℕ)
      → IsSafe s
      → s.stages c ≡ reading []
      → handle client s.hub (unregister c) ≡ done h'
      → IsSafe (record { hub = h'; running = true; stages = set_stage s.stages c finished })
  after_unregister s h' c v at e =
      let in_hub = IsPlaced-at c (reading []) v at in
      let (g, e', mems, channels) = unregister_disconnects client s.hub c v.sound in_hub in
      let (g', e'', sound) = handle-IsSound client s.hub (unregister c) v.sound in_hub in
      let same : g ≡ h' = done-inj (sym e' ∙ e) in
      let same' : g' ≡ h' = done-inj (sym e'' ∙ e) in
      IsSafe-received s h' c finished v (rw (← same') sound) (rw (← same) (ground (arith, mems c)))
        (λ d o. rw (← same) (ground (arith, mems d), ground (arith, channels d)))

  after_broadcast_of :
      (s : State) (h' : Hub) (c : ℕ) (b : Broadcast) (list : List Broadcast)
      → IsSafe s
      → s.stages c ≡ reading (b ∷ list)
      → handle client s.hub (broadcast b) ≡ done h'
      → IsSafe (record { hub = h'; running = true; stages = set_stage s.stages c (reading list) })
  after_broadcast_of s h' c b list v at e =
      let (sound, kept) = broadcast_keeps s.hub h' b v.sound e in
      IsSafe-received s h' c (reading list) v sound
        ((kept c).0 ∙ IsPlaced-at c (reading (b ∷ list)) v at) (λ d o. kept d)

  pub after_send :
      (s : State) (h' : Hub) (e : Event) (c : ℕ) (stage : Stage)
      → IsSafe s
      → s.stages c ≡ stage
      → sends c stage ≡ some e
      → handle client s.hub e ≡ done h'
      → IsSafe (record { hub = h'; running = true; stages = set_stage s.stages c (next stage) })
  unfolding sends next
  after_send s h' e c (entering list) v at n k =
      after_register s h' c list v at (ap (handle client s.hub) (some-inj n) ∙ k)
  after_send s h' e c (reading []) v at n k =
      after_unregister s h' c v at (ap (handle client s.hub) (some-inj n) ∙ k)
  after_send s h' e c (reading (b ∷ list)) v at n k =
      after_broadcast_of s h' c b list v at (ap (handle client s.hub) (some-inj n) ∙ k)
  after_send s h' e c finished v at n k = cc
