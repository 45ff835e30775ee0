-- ===== src/Hub/Index.antt =====
-- The hub's indices by room and by user agree with the set of its clients
-- (internal/delivery/websocket/hub.go).
use chatter_stack.Base.{
  ℕ, String, ◌≡◌, refl, Bool, false, not, ◌&&◌, ◌||◌, Option, none, some, List, [], ◌∷◌, arith, eqb,
  eq_iff, ◌==◌, if◌then◌else◌,
}
use chatter_stack.Base.Dict
use chatter_stack.Base.Dict.{Dict, get-put, get-remove}
use chatter_stack.Hub.Sets.{mem, insert, erase, mem-insert, mem-erase}
use chatter_stack.Hub.{
  Client, Hub, members, join, join_all, put_or_drop, leave_set, leave, leave_all, add_client,
  forget,
}

-- `r` is one of the names.
abbrev pub has_name : String → List String → Bool
has_name r [] = false
has_name r (s ∷ rs) = eqb s r || has_name r rs

pub members-put :
    (k j : String) (cs : List ℕ) (m : Dict (List ℕ))
    → members j (Dict.put k cs m) ≡ (if eqb k j then cs else members j m)
members-put k j cs m = ground (arith, get-put k j cs m)

pub members-remove :
    (k j : String) (m : Dict (List ℕ))
    → members j (Dict.remove k m) ≡ (if eqb k j then [] else members j m)
members-remove k j m = ground (arith, get-remove k j m)

members-join :
    (c d : ℕ) (k j : String) (m : Dict (List ℕ))
    → mem d (members j (join c k m)) ≡ ((eqb k j && c == d) || mem d (members j m))
unfolding join
members-join c d k j m =
    ground
      (arith, members-put k j (insert c (members k m)) m, mem-insert c d (members k m), eq_iff k j)

members-join_all :
    (c d : ℕ) (rs : List String) (j : String) (m : Dict (List ℕ))
    → mem d (members j (join_all c rs m)) ≡ ((has_name j rs && c == d) || mem d (members j m))
unfolding join_all
members-join_all c d [] j m = refl
members-join_all c d (r ∷ rs) j m =
    ground (arith, members-join_all c d rs j (join c r m), members-join c d r j m)

members-put_or_drop :
    (k j : String) (d : ℕ) (cs : List ℕ) (m : Dict (List ℕ))
    → mem d (members j (put_or_drop k cs m)) ≡ (if eqb k j then mem d cs else mem d (members j m))
unfolding put_or_drop mem
members-put_or_drop k j d [] m = ground (arith, members-remove k j m)
members-put_or_drop k j d (c ∷ cs) m = ground (arith, members-put k j (c ∷ cs) m)

members-leave_set :
    (c d : ℕ) (k j : String) (o : Option (List ℕ)) (m : Dict (List ℕ))
    → Dict.get k m ≡ o
    → mem d (members j (leave_set c k o m)) ≡ (not (eqb k j && c == d) && mem d (members j m))
unfolding leave_set mem
members-leave_set c d k j none m e = ground (arith, eq_iff k j)
members-leave_set c d k j (some cs) m e =
    ground (arith, members-put_or_drop k j d (erase c cs) m, mem-erase c d cs, eq_iff k j)

members-leave :
    (c d : ℕ) (k j : String) (m : Dict (List ℕ))
    → mem d (members j (leave c k m)) ≡ (not (eqb k j && c == d) && mem d (members j m))
unfolding leave
members-leave c d k j m = members-leave_set c d k j (Dict.get k m) m refl

members-leave_all :
    (c d : ℕ) (rs : List String) (j : String) (m : Dict (List ℕ))
    → mem d (members j (leave_all c rs m)) ≡ (not (has_name j rs && c == d) && mem d (members j m))
unfolding leave_all
members-leave_all c d [] j m = refl
members-leave_all c d (r ∷ rs) j m =
    ground (arith, members-leave_all c d rs j (leave c r m), members-leave c d r j m)

module _ (client : ℕ → Client) where
  -- A client stands under a room, or under a user, exactly if it is connected and the room is one
  -- of its rooms, or the user is its user.
  pub record IsIndexed (h : Hub) : Type 0 where
    pub by_room :
        (r : String) (c : ℕ)
        → mem c (members r h.rooms) ≡ (mem c h.clients && has_name r (client c).rooms)
    pub by_user :
        (u : String) (c : ℕ)
        → mem c (members u h.users) ≡ (mem c h.clients && eqb (client c).user_id u)

  -- Registering a client keeps the indices in step with the set of clients.
  pub add_client-IsIndexed : (h : Hub) (c : ℕ) → IsIndexed h → IsIndexed (add_client client h c)
  unfolding add_client
  add_client-IsIndexed h c v = record {
    by_room = λ r d. ground (
      arith,
      v.by_room r d,
      members-join_all c d (client c).rooms r h.rooms,
      mem-insert c d h.clients,
    );
    by_user = λ u d. ground (
      arith,
      v.by_user u d,
      members-join c d (client c).user_id u h.users,
      mem-insert c d h.clients,
    );
  }

  pub forget-IsIndexed : (h : Hub) (c : ℕ) → IsIndexed h → IsIndexed (forget client h c)
  unfolding forget
  forget-IsIndexed h c v = record {
    by_room = λ r d. ground (
      arith,
      v.by_room r d,
      members-leave_all c d (client c).rooms r h.rooms,
      mem-erase c d h.clients,
    );
    by_user = λ u d. ground (
      arith,
      v.by_user u d,
      members-leave c d (client c).user_id u h.users,
      mem-erase c d h.clients,
    );
  }
