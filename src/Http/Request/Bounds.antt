-- ===== src/Http/Request/Bounds.antt =====
-- The numbers that internal/delivery/http/helpers.go reads from a query.
use chatter_stack.Base.{
  ℕ, zero, ◌≤◌, ◌<◌, suc, ◌⊎◌, ℤ, pos, negsuc, IsInt, String, ◌≡◌, refl, Option, none, some, inl,
  inr, arith, eqb, atoi, atoi-IsInt, Option-cases, Bool-cases,
}
use chatter_stack.Http.Request.{Request, positive_only, parse_positive, parse_pagination, pair_up}

pair_up-some : (a b : Option ℤ) (x y : ℤ) → pair_up a b ≡ some (x, y) → (a ≡ some x) × (b ≡ some y)
unfolding pair_up
pair_up-some (some p) (some q) x y h = (ground arith, ground arith)
pair_up-some none b x y h = cc
pair_up-some (some p) none x y h = cc

positive_only-some :
    (z n : ℤ)
    → IsInt z
    → positive_only (some z) ≡ some n
    → (m : ℕ) × (n ≡ pos m) × (1 ≤ m) × (m < 9223372036854775808)
positive_only-some (pos zero) n h k = absurd (ground arith)
positive_only-some (pos (suc m)) n h k = (suc m, ground arith, omega arith, omega (arith, h))
positive_only-some (negsuc m) n h k = absurd (ground arith)

-- A number that is accepted is the one that stands for an empty text, or it is positive and fits an
-- `int`.
parse_positive-some :
    (k : ℕ) (v : String) (n : ℤ)
    → parse_positive (pos k) v ≡ some n
    → (m : ℕ) × (n ≡ pos m) × ((m ≡ k) ⊎ ((1 ≤ m) × (m < 9223372036854775808)))
unfolding parse_positive
parse_positive-some k v n h = elim (Bool-cases (eqb v "")) [
  | inl e ↦ (k, ground (arith, rw e at h), inl refl)
  | inr e ↦ elim (Option-cases (atoi v)) [
    | inl f ↦ absurd (ground (arith, rw (e, f) at h))
    | inr (z, f) ↦
        let (m, same, low, high) = positive_only-some z n (atoi-IsInt v z f) (rw (e, f) at h) in
        (m, same, inr (low, high))
  ]
]

-- What `parsePagination` accepts, whatever the query holds, is a page from 1 on and a limit that
-- is not negative, and both fit an `int`.
pub parse_pagination_bounds :
    (r : Request) (page limit : ℤ)
    → parse_pagination r ≡ some (page, limit)
    → (p : ℕ) × (l : ℕ) × (page ≡ pos p)
      × (limit ≡ pos l)
      × (1 ≤ p)
      × (p < 9223372036854775808)
      × (l < 9223372036854775808)
unfolding parse_pagination
parse_pagination_bounds r page limit h =
    let (h1, h2) =
      pair_up-some (parse_positive (pos 1) (r.query "page"))
        (parse_positive (pos 0) (r.query "limit")) page limit h in
    let (p, e, pb) = parse_positive-some 1 (r.query "page") page h1 in
    let (l, f, lb) = parse_positive-some 0 (r.query "limit") limit h2 in
    (p, l, e, f, ground arith, ground arith, ground arith)
