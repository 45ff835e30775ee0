-- ===== src/Messages/Paging.antt =====
-- The windows of messages that internal/domain/messages/service_impl.go asks its repository for.
use Prim.Native.Nat.{◌/◌}
use chatter_stack.Base.{
  ℕ, zero, suc, String, ◌≡◌, refl, false, ℤ, pos, negsuc, ◌≤◌, ◌+◌, ◌*◌, ◌-◌, arith, trim_space,
  IsInt, ltb, leb_ℤ, ◌-ℤ◌, ◌*ℤ◌, half, if◌then◌else◌,
}
use chatter_stack.Base.Int.{wrap_of_IsInt}
use chatter_stack.Messages.{
  Service, is_blank, page_offset, around, or_default_limit, at_most, search,
}

sub_pos : (a b : ℕ) → b ≤ a → pos a -ℤ pos b ≡ pos (a - b)
unfolding ◌-ℤ◌
sub_pos a b h = ground arith

sub_one : (a : ℕ) → pos (suc a) -ℤ pos 1 ≡ pos a
unfolding ◌-ℤ◌
sub_one a = ground arith

suc_not_leb : (a : ℕ) → leb_ℤ (pos (suc a)) (pos 0) ≡ false
suc_not_leb a = ground arith

mul_pos : (a b : ℕ) → pos a *ℤ pos b ≡ pos (a * b)
unfolding ◌*ℤ◌
mul_pos a b = ground arith

-- The row at which a page begins is the number of rows on the pages before it, as long as the
-- number of those pages and the number of those rows fit an `int`.
pub page_offset-eq :
    (before limit : ℕ)
    → IsInt (pos before)
    → IsInt (pos (before * limit))
    → page_offset (pos (suc before)) (pos limit) ≡ pos (before * limit)
unfolding page_offset
page_offset-eq before limit k l =
    rw
      (
        suc_not_leb before,
        sub_one before,
        wrap_of_IsInt (pos before) k,
        mul_pos before limit,
        wrap_of_IsInt (pos (before * limit)) l,
      )
      refl

-- The window of a positive limit that fits an `int` has as many messages before the named one and
-- after it as are left of the limit beside that message, and as many before as after or one more.
pub around_fills :
    (limit : ℕ)
    → 1 ≤ limit
    → IsInt (pos limit)
    → (before : ℕ) × (after : ℕ) × (around (pos limit) ≡ (pos before, pos after))
      × (before + 1 + after ≡ limit)
      × (after ≤ before)
      × (before ≤ after + 1)
unfolding around half
around_fills limit h k =
    let b = limit / 2 in
    (
      b,
      limit - b - 1,
      rw
          (
            sub_pos limit b (omega arith),
            wrap_of_IsInt (pos (limit - b)) (ground (arith, k)),
            sub_pos (limit - b) 1 (omega (arith, h)),
            wrap_of_IsInt (pos (limit - b - 1)) (ground (arith, k)),
          )
          (ground arith),
      omega (arith, h),
      omega (arith, h),
      omega (arith, h),
    )

-- The limit that a search works with.
pub searched : ℤ → ℕ
searched (pos zero) = 50
searched (pos (suc n)) = if ltb 100 (suc n) then 100 else suc n
searched (negsuc n) = 50

at_most-searched : (limit : ℤ) → at_most (pos 100) (or_default_limit limit) ≡ pos (searched limit)
unfolding searched
at_most-searched (pos zero) = refl
at_most-searched (pos (suc n)) = ground arith
at_most-searched (negsuc n) = ground arith

-- A search with a user and a text that are not blank reaches the repository with trimmed texts
-- and a limit from 1 to 100: 50 if the requested one is not positive, 100 if it is larger than
-- that, else the requested one.
pub search_limits :
    {W : Type 0} (s : Service W) (user room query : String) (limit : ℤ) (w : W)
    → is_blank user ≡ false
    → is_blank query ≡ false
    → (search s user room query limit w
        ≡ s.repo.search
            (trim_space user)
            (trim_space room)
            (trim_space query)
            (pos (searched limit))
            w)
      × (1 ≤ searched limit)
      × (searched limit ≤ 100)
unfolding search searched
search_limits s user room query limit w h k =
    (rw (h, k, at_most-searched limit), positive limit, bounded limit)
  where
    positive : (limit : ℤ) → 1 ≤ searched limit
    positive (pos zero) = omega arith
    positive (pos (suc n)) = ground arith
    positive (negsuc n) = omega arith

    bounded : (limit : ℤ) → searched limit ≤ 100
    bounded (pos zero) = omega arith
    bounded (pos (suc n)) = ground arith
    bounded (negsuc n) = omega arith
