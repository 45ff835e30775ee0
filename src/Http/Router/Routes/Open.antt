-- ===== src/Http/Router/Routes/Open.antt =====
-- Which paths need a token.
use chatter_stack.Base.{
  String, Bool, true, false, not, ◌&&◌, ◌≡◌, refl, ◌∙◌, Option, none, some, List, [], ◌∷◌, eqb,
  eq_iff, arith, split_on,
}
use chatter_stack.Http.Router.{Call, health, is_protected}
use chatter_stack.Http.Router.Routes.{
  Route, routes, place, is_name, fits_part, fits, leads_to, found, reaches, get_elem?,
}

-- Whether a path is /health or begins with /v1/auth.
pub is_open : List String → Bool
is_open (root ∷ a ∷ []) = eqb root "" && eqb a "health"
is_open (root ∷ a ∷ b ∷ path) = eqb root "" && eqb a "v1" && eqb b "auth"
is_open _ = false

-- No name among the first three parts.
begins_fixed : List String → Bool
begins_fixed (root ∷ a ∷ []) = not (is_name root) && not (is_name a)
begins_fixed (root ∷ a ∷ b ∷ path) = not (is_name root) && not (is_name a) && not (is_name b)
begins_fixed _ = false

fixed_part : (p s : String) → is_name p ≡ false → fits_part p s ≡ true → p ≡ s
unfolding fits_part
fixed_part p s h f = ground (arith, eq_iff p s)

fits-is_open :
    (pattern path : List String)
    → begins_fixed pattern ≡ true
    → fits pattern path ≡ true
    → is_open path ≡ is_open pattern
unfolding begins_fixed fits is_open
fits-is_open (p ∷ q ∷ []) (s ∷ t ∷ []) h f =
    let first : p ≡ s = fixed_part p s (ground arith) (ground arith) in
    let second : q ≡ t = fixed_part q t (ground arith) (ground arith) in cc
fits-is_open (p ∷ q ∷ r ∷ ps) (s ∷ t ∷ u ∷ path) h f =
    let first : p ≡ s = fixed_part p s (ground arith) (ground arith) in
    let second : q ≡ t = fixed_part q t (ground arith) (ground arith) in
    let third : r ≡ u = fixed_part r u (ground arith) (ground arith) in cc
fits-is_open _ _ h f = ground arith

route_parts : Option Route → List String
route_parts none = []
route_parts (some r) = split_on 47 r.path

place-fixed : (c : Call) → begins_fixed (route_parts (get_elem? routes (place c))) ≡ true
unfolding begins_fixed route_parts routes place split_on is_name
place-fixed health = refl
place-fixed _ = refl

place-is_open :
    (c : Call) → is_open (route_parts (get_elem? routes (place c))) ≡ not (is_protected c)
unfolding is_open route_parts routes place split_on is_protected
place-is_open health = refl
place-is_open _ = refl

found-fits :
    (r : Option Route) (method path : String)
    → found r method path ≡ true
    → fits (route_parts r) (split_on 47 path) ≡ true
unfolding found leads_to route_parts
found-fits none method path h = ground arith
found-fits (some r) method path h = ground arith

-- If a method and a path lead to the route of a call, then the path is /health or begins with
-- /v1/auth exactly when the call needs no token.
pub open_paths :
    (c : Call) (method path : String)
    → reaches c method path ≡ true
    → is_open (split_on 47 path) ≡ not (is_protected c)
unfolding reaches
open_paths c method path h =
    let r = get_elem? routes (place c) in
    fits-is_open (route_parts r) (split_on 47 path) (place-fixed c) (found-fits r method path h)
    ∙ place-is_open c
