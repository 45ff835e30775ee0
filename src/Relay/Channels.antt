-- ===== src/Relay/Channels.antt =====
-- The channels of users, as the services name them and the relay reads them.
use Prim.Native.String.{String, [], ◌∷◌, ◌++◌}
use text.Mathlib.TextLemmas.{append_assoc, cons-append, nil-append}
use chatter_stack.Base.{
  ℕ, ◌≡◌, refl, ap, ◌∙◌, Bool, true, false, not, ◌&&◌, ◌||◌, arith, eqb, split_on, has_none,
  split_on-append, if◌then◌else◌,
}
use chatter_stack.Base
use chatter_stack.Http.Failures.{contains, has_prefix}
use chatter_stack.Relay.{Codec, to_user, user_event, relay}

has_prefix-append : (s t : String) → has_prefix s (s ++ t) ≡ true
unfolding has_prefix
has_prefix-append [] t = refl
has_prefix-append (c ∷ s) t = rw cons-append (ground (arith, has_prefix-append s t))

contains_at_start : (s t : String) → contains s (s ++ t) ≡ true
unfolding contains has_prefix
contains_at_start [] [] = refl
contains_at_start [] (d ∷ t) = rw nil-append refl
contains_at_start (c ∷ s) t = rw cons-append (ground (arith, has_prefix-append s t))

contains_later : (sub s t : String) → contains sub t ≡ true → contains sub (s ++ t) ≡ true
unfolding contains
contains_later sub [] t h = rw nil-append h
contains_later sub (c ∷ s) t h = rw cons-append (ground (arith, contains_later sub s t h))

-- The relay hands the event that a service publishes on the channel of a user, if the id of the
-- user has no colon, to the clients of that user, as it is.
pub user_event_arrives :
    (codec : Codec) (user_id payload : String)
    → has_none 58 user_id ≡ true
    → relay codec ("users:" ++ (user_id ++ ":events")) payload ≡ to_user user_id payload
unfolding relay user_event split_on contains has_prefix has_none
user_event_arrives codec user_id payload h =
    let rest = user_id ++ ":events" in
    let start = contains_at_start "users:" rest in
    let later =
      contains_later ":events" "users:" rest (contains_later ":events" user_id ":events" refl) in
    let first : split_on 58 ("users:" ++ rest) ≡ Base.◌∷◌ "users" (split_on 58 rest) =
      ap (split_on 58) (append_assoc "users" ":" rest)
      ∙ split_on-append 58 ":" "users" rest refl refl in
    let second : split_on 58 rest ≡ Base.◌∷◌ user_id (split_on 58 "events") =
      split_on-append 58 ":" user_id "events" refl h in
    rw (start, later, first, second) refl
