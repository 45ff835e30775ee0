-- ===== src/Http/Router/Routes/Apart.antt =====
-- No method and path lead to two routes.
use chatter_stack.Base.{
  ℕ, zero, suc, String, Bool, true, false, not, ◌&&◌, ◌||◌, ◌≡◌, refl, ap, List, [], ◌∷◌, eqb,
  eq_iff, arith, split_on,
}
use chatter_stack.Http.Router.{Call}
use chatter_stack.Http.Router.Routes.{
  Route, routes, place, is_name, fits_part, fits, leads_to, found, reaches, get_elem?,
}

-- Whether some path fits both patterns.
overlap : List String → List String → Bool
overlap [] [] = true
overlap (p ∷ ps) (q ∷ qs) = (is_name p || is_name q || eqb p q) && overlap ps qs
overlap _ _ = false

apart : Route → Route → Bool
unfolding overlap
apart r t = not (eqb r.method t.method && overlap (split_on 47 r.path) (split_on 47 t.path))

all_apart_from : Route → List Route → Bool
all_apart_from r [] = true
all_apart_from r (t ∷ list) = apart r t && all_apart_from r list

pairwise_apart : List Route → Bool
unfolding all_apart_from
pairwise_apart [] = true
pairwise_apart (r ∷ list) = all_apart_from r list && pairwise_apart list

routes_apart : pairwise_apart routes ≡ true
unfolding pairwise_apart routes apart overlap is_name split_on all_apart_from
routes_apart = refl

part_fits_both :
    (p q s : String)
    → fits_part p s ≡ true
    → fits_part q s ≡ true
    → (is_name p || is_name q || eqb p q) ≡ true
unfolding fits_part
part_fits_both p q s hp hq = ground (arith, eq_iff p s, eq_iff q s, eq_iff p q)

fits_both :
    (ps qs path : List String) → fits ps path ≡ true → fits qs path ≡ true → overlap ps qs ≡ true
unfolding fits overlap
fits_both [] [] path hp hq = refl
fits_both [] (q ∷ qs) [] hp hq = ground arith
fits_both [] (q ∷ qs) (s ∷ path) hp hq = ground arith
fits_both (p ∷ ps) [] [] hp hq = ground arith
fits_both (p ∷ ps) [] (s ∷ path) hp hq = ground arith
fits_both (p ∷ ps) (q ∷ qs) [] hp hq = ground arith
fits_both (p ∷ ps) (q ∷ qs) (s ∷ path) hp hq =
    ground (arith, part_fits_both p q s, fits_both ps qs path)

leads_to_both :
    (r t : Route) (method path : String)
    → leads_to r method path ≡ true
    → leads_to t method path ≡ true
    → apart r t ≡ false
unfolding leads_to apart
leads_to_both r t method path hr ht = ground (
  arith,
  eq_iff r.method method,
  eq_iff t.method method,
  eq_iff r.method t.method,
  fits_both (split_on 47 r.path) (split_on 47 t.path) (split_on 47 path),
)

apart_from-found :
    (r : Route) (list : List Route) (i : ℕ) (method path : String)
    → all_apart_from r list ≡ true
    → leads_to r method path ≡ true
    → found (get_elem? list i) method path ≡ false
unfolding all_apart_from found
apart_from-found r [] i method path h hr = refl
apart_from-found r (t ∷ list) zero method path h hr = ground (arith, leads_to_both r t method path)
apart_from-found r (t ∷ list) (suc i) method path h hr =
    apart_from-found r list i method path (ground arith) hr

found_once :
    (list : List Route) (i j : ℕ) (method path : String)
    → pairwise_apart list ≡ true
    → found (get_elem? list i) method path ≡ true
    → found (get_elem? list j) method path ≡ true
    → i ≡ j
unfolding pairwise_apart found
found_once [] i j method path h hi hj = ground arith
found_once (r ∷ list) zero zero method path h hi hj = refl
found_once (r ∷ list) zero (suc j) method path h hi hj =
    ground (arith, apart_from-found r list j method path)
found_once (r ∷ list) (suc i) zero method path h hi hj =
    ground (arith, apart_from-found r list i method path)
found_once (r ∷ list) (suc i) (suc j) method path h hi hj =
    ap suc (found_once list i j method path (ground arith) hi hj)

-- A method and a path lead to one route at most, so it does not matter in which order the routes
-- are tried.
pub one_route :
    (c d : Call) (method path : String)
    → reaches c method path ≡ true
    → reaches d method path ≡ true
    → place c ≡ place d
unfolding reaches
one_route c d method path = found_once routes (place c) (place d) method path routes_apart
