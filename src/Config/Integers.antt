-- ===== src/Config/Integers.antt =====
-- 64-bit signed integers, for counts and lengths of time in nanoseconds: their order, and their sum with its
-- wrap-around.
use dp1_feed_v.Shared.{
  ℕ, ◌+◌, ◌-◌, ◌%◌, ◌<◌, ◌≤◌, ◌≡◌, Bool, true, false, ℤ, pos, negsuc, ltb, if◌then◌else◌, arith,
}

unfoldable pub is_negative : ℤ → Bool
is_negative (pos n) = false
is_negative (negsuc n) = true

unfoldable pub is_positive : ℤ → Bool
is_positive (pos n) = ltb 0 n
is_positive (negsuc n) = false

-- The first is less than the second.
unfoldable pub z_ltb : ℤ → ℤ → Bool
z_ltb (pos a) (pos b) = ltb a b
z_ltb (pos a) (negsuc b) = false
z_ltb (negsuc a) (pos b) = true
z_ltb (negsuc a) (negsuc b) = ltb b a

-- The 64 bits of a number, as a number, and back.
bits_of : ℤ → ℕ
bits_of (pos n) = n % 18446744073709551616
bits_of (negsuc n) = 18446744073709551615 - n % 18446744073709551616

of_bits : ℕ → ℤ
of_bits n = if ltb n 9223372036854775808 then pos n else negsuc (18446744073709551615 - n)

-- Go's `+` on int64.
unfoldable pub z_add : ℤ → ℤ → ℤ
unfolding bits_of of_bits
z_add a b = of_bits ((bits_of a + bits_of b) % 18446744073709551616)

-- Two numbers whose sum fits have it.
pub z_add-pos : (a b : ℕ) → a + b < 9223372036854775808 → z_add (pos a) (pos b) ≡ pos (a + b)
unfolding z_add of_bits bits_of
z_add-pos a b h =
    let e : (a % 18446744073709551616 + b % 18446744073709551616) % 18446744073709551616 ≡ a + b =
      omega arith in
    rw e (ground arith)

-- Two numbers whose sum does not fit have a negative one.
pub z_add_overflow :
    (a b : ℕ)
    → a < 9223372036854775808
    → b < 9223372036854775808
    → 9223372036854775808 ≤ a + b
    → z_add (pos a) (pos b) ≡ negsuc (18446744073709551615 - (a + b))
unfolding z_add of_bits bits_of
z_add_overflow a b p q h =
    let e : (a % 18446744073709551616 + b % 18446744073709551616) % 18446744073709551616 ≡ a + b =
      omega arith in
    rw e (ground arith)
