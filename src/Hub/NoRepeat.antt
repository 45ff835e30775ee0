-- ===== src/Hub/NoRepeat.antt =====
-- The sets of the hub's index by room hold a client once (internal/delivery/websocket/hub.go).
use chatter_stack.Base.{ℕ, String, Option, none, some, List, [], ◌∷◌, arith}
use chatter_stack.Base.Dict
use chatter_stack.Base.Dict.{Dict}
use chatter_stack.Hub.Sets.{insert, erase, HasNoRepeat, insert-HasNoRepeat, erase-HasNoRepeat}
use chatter_stack.Hub.{members, or_empty, join, join_all, put_or_drop, leave_set, leave, leave_all}
use chatter_stack.Hub.Index.{members-put, members-remove}

abbrev pub RoomsHaveNoRepeat : Dict (List ℕ) → Type 0
RoomsHaveNoRepeat m = (r : String) → HasNoRepeat (members r m)

join-NoRepeat :
    (c : ℕ) (k r : String) (m : Dict (List ℕ))
    → HasNoRepeat (members r m)
    → HasNoRepeat (members k m)
    → HasNoRepeat (members r (join c k m))
unfolding join
join-NoRepeat c k r m h g =
    rw (members-put k r (insert c (members k m)) m)
      (ground (arith, insert-HasNoRepeat c (members k m) g))

pub join_all-NoRepeat :
    (c : ℕ) (ks : List String) (m : Dict (List ℕ))
    → RoomsHaveNoRepeat m
    → RoomsHaveNoRepeat (join_all c ks m)
unfolding join_all
join_all-NoRepeat c [] m h = h
join_all-NoRepeat c (k ∷ ks) m h =
    join_all-NoRepeat c ks (join c k m) (λ r. join-NoRepeat c k r m (h r) (h k))

put_or_drop-NoRepeat :
    (k r : String) (cs : List ℕ) (m : Dict (List ℕ))
    → HasNoRepeat (members r m)
    → HasNoRepeat cs
    → HasNoRepeat (members r (put_or_drop k cs m))
unfolding put_or_drop
put_or_drop-NoRepeat k r [] m h g = ground (arith, members-remove k r m)
put_or_drop-NoRepeat k r (c ∷ cs) m h g = ground (arith, members-put k r (c ∷ cs) m)

leave_set-NoRepeat :
    (c : ℕ) (k r : String) (o : Option (List ℕ)) (m : Dict (List ℕ))
    → HasNoRepeat (members r m)
    → HasNoRepeat (or_empty o)
    → HasNoRepeat (members r (leave_set c k o m))
unfolding leave_set
leave_set-NoRepeat c k r none m h g = h
leave_set-NoRepeat c k r (some cs) m h g =
    put_or_drop-NoRepeat k r (erase c cs) m h (erase-HasNoRepeat c cs g)

pub leave_all-NoRepeat :
    (c : ℕ) (ks : List String) (m : Dict (List ℕ))
    → RoomsHaveNoRepeat m
    → RoomsHaveNoRepeat (leave_all c ks m)
unfolding leave_all leave
leave_all-NoRepeat c [] m h = h
leave_all-NoRepeat c (k ∷ ks) m h =
    leave_all-NoRepeat c ks (leave c k m)
      (λ r. leave_set-NoRepeat c k r (Dict.get k m) m (h r) (h k))
