-- ===== src/Hub/Senders/Blocked.antt =====
-- After `Run` has returned.
use chatter_stack.Base.{ℕ, ◌≡◌, refl, ◌∙◌, false}
use chatter_stack.Hub.{Client}
use chatter_stack.Hub.Senders.{
  State, Step, received, relayed, slow, took, told, cancelled, Runs, here, later,
}

module _ (client : ℕ → Client) where
  Step-blocked :
      {s t : State}
      → Step client s t
      → s.running ≡ false
      → (t.running ≡ false) × (t.stages ≡ s.stages)
  Step-blocked (received c r n e) h = cc
  Step-blocked (relayed b r e) h = cc
  Step-blocked (slow c before after r n e) h = cc
  Step-blocked (took c) h = (h, refl)
  Step-blocked (told user bytes e) h = (h, refl)
  Step-blocked (cancelled r e) h = cc

  pub ended_for_good : {s t : State} → Runs client s t → s.running ≡ false → t.running ≡ false
  ended_for_good here h = h
  ended_for_good (later step run) h = ended_for_good run (Step-blocked step h).0

  -- Once `Run` has returned, no handler of a client gets any further, whatever else happens: what
  -- it sends to the hub is never received, and a deferred `Unregister` does not return.
  pub handlers_wait_for_ever :
      {s t : State} → Runs client s t → s.running ≡ false → t.stages ≡ s.stages
  handlers_wait_for_ever here h = refl
  handlers_wait_for_ever (later step run) h =
      let (h', same) = Step-blocked step h in handlers_wait_for_ever run h' ∙ same
