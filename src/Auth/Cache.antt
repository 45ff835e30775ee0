-- ===== src/Auth/Cache.antt =====
-- What the authentication service relies on in its cache, and how the entries that its actions leave
-- behind are followed (internal/domain/auth/service_impl.go).
use chatter_stack.Base.{
  ℕ, String, ◌≡◌, Bool, true, false, Option, none, some, ℤ, ◌⊎◌, not, inl, inr, Option-cases,
}
use chatter_stack.Errors.{Error, is_cache_miss}
use chatter_stack.Exec.{Result, ok, err, Exec, refuse, continue, ◌>>◌}
use chatter_stack.Models.{User}
use chatter_stack.Utils.{generate_opaque_token}
use chatter_stack.Auth.{Service, TokenCache, drop, drop_found, drop_entry, invalidate_session}
use chatter_stack.Auth.Keys.{session_key, access_session_key, refresh_key, access_key}

-- The entries of a cache.
abbrev pub View : Type 0 → Type 0
View W = W → String → Option String

-- Every entry of the second world is one of the first. An entry may be gone, as it may expire at any
-- time.
pub record Keeps {W : Type 0} (view : View W) (w w' : W) : Type 0 where
  pub at : (k v : String) → view w' k ≡ some v → view w k ≡ some v

-- A cache with entries `view w`. Reading and deleting add no entry, a write adds its own only, and
-- after a write that succeeded no other value stands under its key. What is read was there. Every
-- call may fail, deletions may be lost, and entries may expire.
pub record IsCache {W : Type 0} (view : View W) (cache : TokenCache W) : Type 0 where
  pub get_sound : (k v : String) (w : W) → (cache.get k w).0 ≡ ok v → view w k ≡ some v
  pub get_keeps : (k : String) (w : W) → Keeps view w (cache.get k w).1
  pub delete_keeps : (k : String) (w : W) → Keeps view w (cache.delete k w).1
  pub set_only :
      (k v : String) (ttl : ℤ) (w : W) (j u : String)
      → view (cache.set k v ttl w).1 j ≡ some u
      → ((j ≡ k) × (u ≡ v)) ⊎ (view w j ≡ some u)
  pub set_ok :
      (k v : String) (ttl : ℤ) (w : W) (u : String)
      → (cache.set k v ttl w).0 ≡ ok tt
      → view (cache.set k v ttl w).1 k ≡ some u
      → u ≡ v

-- The other services of a world leave the cache alone, and a look-up by id finds that id.
pub record IsWorld {W : Type 0} (view : View W) (s : Service W) : Type 0 where
  pub cached : IsCache view s.cache
  pub by_id_keeps : (id : String) (w : W) → Keeps view w (s.users.get_by_id id w).1
  pub by_email_keeps : (email : String) (w : W) → Keeps view w (s.users.get_by_email email w).1
  pub update_keeps :
      (id status : String) (now : ℕ) (w : W)
      → Keeps view w (s.users.update_status id status now w).1
  pub token_keeps :
      (prefix : String) (w : W) → Keeps view w (generate_opaque_token s.crypto prefix w).1
  pub by_id : (id : String) (w : W) (r : User) → (s.users.get_by_id id w).0 ≡ ok r → r.id ≡ id

module _ {W : Type 0} {view : View W} where
  pub Keeps-refl : (w : W) → Keeps view w w
  Keeps-refl w = record { at = λ k v h. h }

  -- What was not there is not there later.
  pub Keeps-none : {w w' : W} → Keeps view w w' → (k : String) → view w k ≡ none → view w' k ≡ none
  Keeps-none {w' = w'} kept k gone = elim (Option-cases (view w' k)) [
    | inl e ↦ e
    | inr (v, e) ↦ absurd (let there = kept.at k v e in cc)
  ]

  pub Keeps-trans : {w0 w1 w2 : W} → Keeps view w0 w1 → Keeps view w1 w2 → Keeps view w0 w2
  Keeps-trans a b = record { at = λ k v h. a.at k v (b.at k v h) }

  pub Keeps-refuse : (b : Bool) (e : Error) (w : W) → Keeps view w (refuse b e w).1
  Keeps-refuse true e w = Keeps-refl w
  Keeps-refuse false e w = Keeps-refl w

  pub Keeps-bind :
      {A B : Type 0} (r : Result A) (f : A → Exec W B) (w0 w : W)
      → Keeps view w0 w
      → ((a : A) → Keeps view w (f a w).1)
      → Keeps view w0 (continue r f w).1
  Keeps-bind (ok a) f w0 w k h = Keeps-trans k (h a)
  Keeps-bind (err e) f w0 w k h = k

  pub Keeps-then :
      {A B : Type 0} (m : Exec W A) (n : Exec W B) (w : W)
      → Keeps view w (m w).1
      → ((w1 : W) → Keeps view w1 (n w1).1)
      → Keeps view w ((m >> n) w).1
  Keeps-then m n w k h = Keeps-bind (m w).0 (λ a. n) w (m w).1 k (λ a. h (m w).1)

  module _ (s : Service W) (world : IsWorld view s) where
    open s use {cache}

    drop-Keeps :
        (key : String) (other_key : String → String) (token : String) (w : W)
        → Keeps view w (drop s key other_key token w).1
    unfolding drop
    drop-Keeps key other_key token w =
        Keeps-trans (world.cached.delete_keeps key w)
          (world.cached.delete_keeps (other_key token) _)

    drop_found-Keeps :
        (key : String) (other_key : String → String) (r : Result String) (w : W)
        → Keeps view w (drop_found s key other_key r w).1
    unfolding drop_found
    drop_found-Keeps key other_key (ok token) w = drop-Keeps key other_key token w
    drop_found-Keeps key other_key (err e) w = Keeps-refuse (not (is_cache_miss e)) e w

    drop_entry-Keeps :
        (key : String) (other_key : String → String) (w : W)
        → Keeps view w (drop_entry s key other_key w).1
    unfolding drop_entry
    drop_entry-Keeps key other_key w =
        Keeps-trans (world.cached.get_keeps key w)
          (drop_found-Keeps key other_key (cache.get key w).0 (cache.get key w).1)

    pub invalidate_session-Keeps :
        (id : String) (w : W) → Keeps view w (invalidate_session s id w).1
    unfolding invalidate_session
    invalidate_session-Keeps id w =
        Keeps-then (drop_entry s (session_key id) refresh_key)
          (drop_entry s (access_session_key id) access_key) w
          (drop_entry-Keeps (session_key id) refresh_key w)
          (drop_entry-Keeps (access_session_key id) access_key)
