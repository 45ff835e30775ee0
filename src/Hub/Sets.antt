-- ===== src/Hub/Sets.antt =====
-- The sets `map[*Client]struct{}` of hub.go, as lists that hold a client once.
use chatter_stack.Base.{
  ℕ, ◌≡◌, Bool, false, not, ◌&&◌, ◌||◌, List, [], ◌∷◌, arith, ◌==◌, if◌then◌else◌,
}

unfoldable pub mem : ℕ → List ℕ → Bool
mem c [] = false
mem c (d ∷ ds) = d == c || mem c ds

-- set[c] = struct{}{}
unfoldable pub insert : ℕ → List ℕ → List ℕ
unfolding mem
insert c ds = if mem c ds then ds else c ∷ ds

-- delete(set, c)
unfoldable pub erase : ℕ → List ℕ → List ℕ
erase c [] = []
erase c (d ∷ ds) = let rest = erase c ds in if d == c then rest else d ∷ rest

pub mem-insert : (c d : ℕ) (ds : List ℕ) → mem d (insert c ds) ≡ (c == d || mem d ds)
unfolding insert
mem-insert c d ds = ground arith

pub mem-erase : (c d : ℕ) (ds : List ℕ) → mem d (erase c ds) ≡ (not (c == d) && mem d ds)
unfolding mem erase
mem-erase c d [] = ground arith
mem-erase c d (e ∷ ds) = ground (arith, mem-erase c d ds)

-- The list holds no client twice.
abbrev pub HasNoRepeat : List ℕ → Type 0
HasNoRepeat [] = Unit
HasNoRepeat (d ∷ ds) = (mem d ds ≡ false) × HasNoRepeat ds

pub insert-HasNoRepeat : (c : ℕ) (ds : List ℕ) → HasNoRepeat ds → HasNoRepeat (insert c ds)
unfolding insert
insert-HasNoRepeat c ds h = ground arith

pub erase-HasNoRepeat : (c : ℕ) (ds : List ℕ) → HasNoRepeat ds → HasNoRepeat (erase c ds)
unfolding erase
erase-HasNoRepeat c [] h = h
erase-HasNoRepeat c (d ∷ ds) h = ground (arith, erase-HasNoRepeat c ds h.1, mem-erase c d ds)
