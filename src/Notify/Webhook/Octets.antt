-- ===== src/Notify/Webhook/Octets.antt =====
-- `big.Int.FillBytes`: the big-endian bytes of a number, in a buffer of fixed width.
use native.Mathlib.Numerals.{unary_clauses}
use native.Mathlib.Nat.{div-lt_iff_lt-mul}
use dp1_feed_v.Shared.{
  ℕ, zero, suc, ◌+◌, ◌*◌, ◌/◌, ◌%◌, ◌^◌, ◌<◌, ◌≡◌, refl, ◌∙◌, [], ◌∷◌, ◌++◌, length, length-append,
  arith,
}
use dp1_feed_v.Models.{Bytes}

-- The number is below 256 to the width; `FillBytes` panics where it is not.
unfoldable pub big_endian : ℕ → ℕ → Bytes
big_endian zero n = []
big_endian (suc w) n = big_endian w (n / 256) ++ n % 256 ∷ []

-- The number that big-endian bytes stand for, `acc` that of the bytes before.
unfoldable pub number_from : ℕ → Bytes → ℕ
number_from acc [] = acc
number_from acc (b ∷ bs) = number_from (acc * 256 + b) bs

pub length-big_endian : (w n : ℕ) → length (big_endian w n) ≡ w
unfolding big_endian
length-big_endian zero n = refl
length-big_endian (suc w) n =
    omega
      (arith, length-append (big_endian w (n / 256)) (n % 256 ∷ []), length-big_endian w (n / 256))

number_from-append :
    (acc : ℕ) (bs : Bytes) (b : ℕ) → number_from acc (bs ++ b ∷ []) ≡ number_from acc bs * 256 + b
unfolding number_from
number_from-append acc [] b = refl
number_from-append acc (c ∷ bs) b = number_from-append (acc * 256 + c) bs b

-- Bytes of enough width read back as the number.
pub number_from-big_endian : (w n : ℕ) → n < 256 ^ w → number_from 0 (big_endian w n) ≡ n
unfolding big_endian number_from
number_from-big_endian zero n h = omega arith
number_from-big_endian (suc w) n h =
    number_from-append 0 (big_endian w (n / 256)) (n % 256)
    ∙ omega (
      arith,
      number_from-big_endian w (n / 256)
          ((div-lt_iff_lt-mul (omega arith)).1 (simp unary_clauses at h)),
    )
