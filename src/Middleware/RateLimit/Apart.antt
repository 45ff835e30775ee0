-- ===== src/Middleware/RateLimit/Apart.antt =====
-- The clients of pkg/middleware/rate_limit.go do not take each other's tokens.
use chatter_stack.Base.{
  ℕ, ◌+◌, ◌*◌, ltb, String, ◌≡◌, ◌≢◌, subst, refl, ap, ◌∙◌, Bool, Option, none, some, List, [], ◌∷◌,
  arith, inl, inr, eqb, eq_iff, eqb-false, All, Bool-cases, if◌then◌else◌,
}
use chatter_stack.Base.Dict
use chatter_stack.Base.Dict.{Dict}
use chatter_stack.Middleware.RateLimit.{
  Visitor, RateLimiter, Event, request, tick, limiter_of, handle, is_stale, cleanup, answers,
}

-- Whether a table has each key once.
abbrev HasDistinctKeys {ℓ} : {V : Type ℓ} → Dict V → Type ℓ
HasDistinctKeys [] = Unit
HasDistinctKeys ((k, v) ∷ m) = All (λ e. e.0 ≢ k) m × HasDistinctKeys m

module _ {V : Type 0} where
  get-absent : (k : String) (m : Dict V) → All (λ e. e.0 ≢ k) m → Dict.get k m ≡ none
  unfolding Dict.get
  get-absent k [] h = refl
  get-absent k ((j, v) ∷ m) (h, hs) = rw (eqb-false j k h) (get-absent k m hs)

  remove-All :
      (k j : String) (m : Dict V) → All (λ e. e.0 ≢ j) m → All (λ e. e.0 ≢ j) (Dict.remove k m)
  unfolding Dict.remove
  remove-All k j [] h = tt
  remove-All k j ((i, v) ∷ m) (h, hs) = elim (Bool-cases (eqb i k)) [
    | inl e ↦ rw e (remove-All k j m hs)
    | inr e ↦ rw e (h, remove-All k j m hs)
  ]

  removed : (k : String) (m : Dict V) → All (λ e. e.0 ≢ k) (Dict.remove k m)
  unfolding Dict.remove
  removed k [] = tt
  removed k ((i, v) ∷ m) = elim (Bool-cases (eqb i k)) [
    | inl e ↦ rw e (removed k m)
    | inr e ↦ rw e (λ f. ground (arith, eq_iff i k), removed k m)
  ]

  remove-HasDistinctKeys :
      (k : String) (m : Dict V) → HasDistinctKeys m → HasDistinctKeys (Dict.remove k m)
  unfolding Dict.remove
  remove-HasDistinctKeys k [] h = tt
  remove-HasDistinctKeys k ((i, v) ∷ m) (h, hs) = elim (Bool-cases (eqb i k)) [
    | inl e ↦ rw e (remove-HasDistinctKeys k m hs)
    | inr e ↦ rw e (remove-All k i m h, remove-HasDistinctKeys k m hs)
  ]

module _ {L : Type 0} (r : RateLimiter L) where
  -- The clean-up as one visitor sees it.
  unfoldable pub kept : ℕ → Option (Visitor L) → Option (Visitor L)
  kept now none = none
  kept now (some v) = if is_stale r now v then none else some v

  -- A limiter of one key alone, if it has one, and when it was asked last.
  abbrev pub Own : Type 0
  Own = Option (L × ℕ)

  abbrev pub own_limiter : Own → L
  own_limiter none = r.fresh
  own_limiter (some (limiter, asked)) = limiter

  -- A limiter that has been idle for more than two windows is forgotten.
  abbrev pub own_kept : ℕ → Own → Own
  own_kept now none = none
  own_kept now (some (limiter, asked)) =
      if ltb (asked + (r.window + r.window)) now then none else some (limiter, asked)

  -- The answers to the requests of a key, from its requests and the ticks alone.
  unfoldable pub own_answers : String → List Event → Own → List Bool
  own_answers key [] own = []
  own_answers key (request j now ∷ events) own =
      let (allowed, limiter) = r.allow (own_limiter own) now in
      let mine = own_answers key events (some (limiter, now)) in
      let others = own_answers key events own in if eqb j key then allowed ∷ mine else others
  own_answers key (tick now ∷ events) own = own_answers key events (own_kept now own)

  abbrev pub own_of : Option (Visitor L) → Own
  own_of none = none
  own_of (some v) = some (v.limiter, v.last_seen)

  own_of-limiter : (o : Option (Visitor L)) → limiter_of r o ≡ own_limiter (own_of o)
  unfolding limiter_of
  own_of-limiter none = refl
  own_of-limiter (some v) = refl

  own_of-kept : (now : ℕ) (o : Option (Visitor L)) → own_of (kept now o) ≡ own_kept now (own_of o)
  unfolding kept is_stale
  own_of-kept now none = refl
  own_of-kept now (some v) =
      let twice : v.last_seen + r.window * 2 ≡ v.last_seen + (r.window + r.window) = omega arith in
      elim (Bool-cases (ltb (v.last_seen + (r.window + r.window)) now)) [
        | inl e ↦ rw (twice, e) refl
        | inr e ↦ rw (twice, e) refl
      ]

  cleanup-All :
      (now : ℕ) (j : String) (m : Dict (Visitor L))
      → All (λ e. e.0 ≢ j) m
      → All (λ e. e.0 ≢ j) (cleanup r now m)
  unfolding cleanup
  cleanup-All now j [] h = tt
  cleanup-All now j ((i, v) ∷ m) (h, hs) = elim (Bool-cases (is_stale r now v)) [
    | inl e ↦ rw e (cleanup-All now j m hs)
    | inr e ↦ rw e (h, cleanup-All now j m hs)
  ]

  cleanup-HasDistinctKeys :
      (now : ℕ) (m : Dict (Visitor L)) → HasDistinctKeys m → HasDistinctKeys (cleanup r now m)
  unfolding cleanup
  cleanup-HasDistinctKeys now [] h = tt
  cleanup-HasDistinctKeys now ((i, v) ∷ m) (h, hs) = elim (Bool-cases (is_stale r now v)) [
    | inl e ↦ rw e (cleanup-HasDistinctKeys now m hs)
    | inr e ↦ rw e (cleanup-All now i m h, cleanup-HasDistinctKeys now m hs)
  ]

  get-cleanup :
      (now : ℕ) (k : String) (m : Dict (Visitor L))
      → HasDistinctKeys m
      → Dict.get k (cleanup r now m) ≡ kept now (Dict.get k m)
  unfolding cleanup kept Dict.get
  get-cleanup now k [] h = refl
  get-cleanup now k ((i, v) ∷ m) (h, hs) = elim (Bool-cases (is_stale r now v)) [
    | inr e ↦ elim (Bool-cases (eqb i k)) [
      | inl f ↦ rw (e, f, e) refl
      | inr f ↦ rw (e, f) (get-cleanup now k m hs)
    ]
    | inl e ↦ elim (Bool-cases (eqb i k)) [
      | inr f ↦ rw (e, f) (get-cleanup now k m hs)
      | inl f ↦
          let gone = subst (λ x. All (λ y. y.0 ≢ x) m) ((eq_iff i k).0 f) h in
          rw (e, f, e) (get-absent k (cleanup r now m) (cleanup-All now k m gone))
    ]
  ]

  -- In a table that has each key once, whatever the requests of other keys are, and in whatever
  -- order they come, the requests of a key pass exactly when one limiter of its own lets them
  -- pass, which starts anew when a tick finds that the key has been idle for more than two
  -- windows.
  pub answers-eq :
      (key : String) (events : List Event) (visitors : Dict (Visitor L))
      → HasDistinctKeys visitors
      → answers r key events visitors ≡ own_answers key events (own_of (Dict.get key visitors))
  unfolding answers own_answers handle Dict.put
  answers-eq key [] visitors h = refl
  answers-eq key (tick now ∷ events) visitors h =
      answers-eq key events (cleanup r now visitors) (cleanup-HasDistinctKeys now visitors h)
      ∙ ap (λ o. own_answers key events (own_of o)) (get-cleanup now key visitors h)
      ∙ ap (own_answers key events) (own_of-kept now (Dict.get key visitors))
  answers-eq key (request j now ∷ events) visitors h =
      let (allowed, limiter) = r.allow (limiter_of r (Dict.get j visitors)) now in
      let v : Visitor L = record { limiter = limiter; last_seen = now } in
      let later = Dict.put j v visitors in
      let rest =
        answers-eq key events later (removed j visitors, remove-HasDistinctKeys j visitors h) in
      let found = Dict.get-put j key v visitors in
      elim (Bool-cases (eqb j key)) [
        | inl e ↦
            let same = ap (λ x. Dict.get x visitors) ((eq_iff j key).0 e) in
            let limiter_same = own_of-limiter (Dict.get key visitors) in
            rw (e, rest, found, e, same, limiter_same) refl
        | inr e ↦ rw (e, rest, found, e) refl
      ]
