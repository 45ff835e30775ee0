-- ===== src/Auth/Reliable.antt =====
-- A cache that loses nothing, and what the actions of internal/domain/auth/service_impl.go do to it.
use chatter_stack.Base.{
  String, ◌≡◌, ◌≢◌, refl, ap, ◌∙◌, Option, none, some, ℤ, inl, inr, arith, eqb, eq_iff,
  Option-cases, if◌then◌else◌,
}
use chatter_stack.Errors.{cache_miss}
use chatter_stack.Exec.{Result, ok, err}
use chatter_stack.Auth.{Service, TokenCache, drop, drop_found, drop_entry, invalidate_session}
use chatter_stack.Auth.Keys.{
  session_key, access_key, access_session_key, refresh_key, session-ne-access_session,
  refresh-ne-access_session,
}
use chatter_stack.Auth.Cache.{View}

abbrev pub found : Option String → Result String
found none = err cache_miss
found (some v) = ok v

-- Every call succeeds: a look-up tells what is there, a write and a deletion change one entry. This
-- leaves out that entries expire.
pub record IsReliable {W : Type 0} (view : View W) (cache : TokenCache W) : Type 0 where
  pub get : (k : String) (w : W) → (cache.get k w).0 ≡ found (view w k)
  pub get_view : (k : String) (w : W) (j : String) → view (cache.get k w).1 j ≡ view w j
  pub delete : (k : String) (w : W) → (cache.delete k w).0 ≡ ok tt
  pub delete_view :
      (k : String) (w : W) (j : String)
      → view (cache.delete k w).1 j ≡ (if eqb k j then none else view w j)
  pub set : (k v : String) (ttl : ℤ) (w : W) → (cache.set k v ttl w).0 ≡ ok tt
  pub set_view :
      (k v : String) (ttl : ℤ) (w : W) (j : String)
      → view (cache.set k v ttl w).1 j ≡ (if eqb k j then some v else view w j)

-- The entry `key` is gone, and so is the entry of the token that it named; others are as they were.
pub record IsDropped {W : Type 0} (view : View W) (key : String) (other_key : String → String)
    (w w' : W) : Type 0 where
  pub gone : view w' key ≡ none
  pub other_gone : (t : String) → view w key ≡ some t → view w' (other_key t) ≡ none
  pub kept : (j : String) → key ≢ j → ((t : String) → other_key t ≢ j) → view w' j ≡ view w j
  pub stays_gone : (j : String) → view w j ≡ none → view w' j ≡ none

module _ {W : Type 0} {view : View W} (s : Service W) (reliable : IsReliable view s.cache) where
  open s use {cache}

  drop-IsDropped :
      (key : String) (other_key : String → String) (t : String) (w : W)
      → view w key ≡ some t
      → ((drop s key other_key t w).0 ≡ ok tt)
        × IsDropped view key other_key w (drop s key other_key t w).1
  unfolding drop
  drop-IsDropped key other_key t w e =
      let w1 = (cache.delete key w).1 in
      (
        refl,
        record {
          gone = ground (
            arith,
            reliable.delete_view (other_key t) w1 key,
            reliable.delete_view key w key,
            eq_iff key key,
          );
          other_gone = λ u f. ground (
            arith,
            reliable.delete_view (other_key t) w1 (other_key u),
            eq_iff (other_key t) (other_key u),
            ap other_key (same_entry t u e f),
          );
          kept = λ j n m. ground (
            arith,
            reliable.delete_view (other_key t) w1 j,
            reliable.delete_view key w j,
            eq_iff key j,
            eq_iff (other_key t) j,
            m t,
          );
          stays_gone = λ j g.
              ground (arith, reliable.delete_view (other_key t) w1 j, reliable.delete_view key w j);
        },
      )
    where
      same_entry : (t u : String) → view w key ≡ some t → view w key ≡ some u → t ≡ u
      same_entry t u e f = ground arith

  after_look-IsDropped :
      (key : String) (other_key : String → String) (w w1 w' : W)
      → ((j : String) → view w1 j ≡ view w j)
      → IsDropped view key other_key w1 w'
      → IsDropped view key other_key w w'
  after_look-IsDropped key other_key w w1 w' same d = record {
    gone = d.gone;
    other_gone = λ t e. d.other_gone t (same key ∙ e);
    kept = λ j n m. d.kept j n m ∙ same j;
    stays_gone = λ j e. d.stays_gone j (same j ∙ e);
  }

  -- Nothing was under the key.
  nothing-IsDropped :
      (key : String) (other_key : String → String) (w : W)
      → view w key ≡ none
      → IsDropped view key other_key w w
  nothing-IsDropped key other_key w e = record {
    gone = e;
    other_gone = λ t f. absurd (ground arith);
    kept = λ j n m. refl;
    stays_gone = λ j f. f;
  }

  pub drop_entry-IsDropped :
      (key : String) (other_key : String → String) (w : W)
      → ((drop_entry s key other_key w).0 ≡ ok tt)
        × IsDropped view key other_key w (drop_entry s key other_key w).1
  unfolding drop_entry drop_found
  drop_entry-IsDropped key other_key w =
      let w1 = (cache.get key w).1 in
      let same = reliable.get_view key w in
      elim (Option-cases (view w key)) [
        | inl e ↦
            rw (reliable.get key w, e)
              (
                refl,
                after_look-IsDropped key other_key w w1 w1 same
                    (nothing-IsDropped key other_key w1 (same key ∙ e)),
              )
        | inr (t, e) ↦
            rw (reliable.get key w, e)
              (let (done, dropped) = drop-IsDropped key other_key t w1 (same key ∙ e) in
                (
                  done,
                  after_look-IsDropped key other_key w w1 (drop s key other_key t w1).1 same
                      dropped,
                ))
      ]

  -- Both entries of a user's session, and those of the tokens that they named, are gone, and no entry
  -- has been added.
  pub record IsEnded (id : String) (w w' : W) : Type 0 where
    pub session : view w' (session_key id) ≡ none
    pub access_session : view w' (access_session_key id) ≡ none
    pub refresh : (t : String) → view w (session_key id) ≡ some t → view w' (refresh_key t) ≡ none
    pub access :
        (t : String) → view w (access_session_key id) ≡ some t → view w' (access_key t) ≡ none

  pub invalidate_session-IsEnded :
      (id : String) (w : W)
      → ((invalidate_session s id w).0 ≡ ok tt) × IsEnded id w (invalidate_session s id w).1
  unfolding invalidate_session
  invalidate_session-IsEnded id w =
      let w1 = (drop_entry s (session_key id) refresh_key w).1 in
      let w2 = (drop_entry s (access_session_key id) access_key w1).1 in
      let (done, first) = drop_entry-IsDropped (session_key id) refresh_key w in
      let (done', second) = drop_entry-IsDropped (access_session_key id) access_key w1 in
      rw done (
        done',
        record {
          session = second.stays_gone (session_key id) first.gone;
          access_session = second.gone;
          refresh = λ t e. second.stays_gone (refresh_key t) (first.other_gone t e);
          access = λ t e. second.other_gone t (
              first.kept (access_session_key id) (session-ne-access_session id id)
                (λ u. refresh-ne-access_session u id)
              ∙ e);
        },
      )
