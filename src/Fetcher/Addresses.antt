-- ===== src/Fetcher/Addresses.antt =====
-- The destinations that the address guard refuses.
use dp1_feed_v.Shared.{
  ℕ, zero, suc, ◌≡◌, ap, ◌≤◌, ◌<◌, ◌+◌, ◌*◌, ◌-◌, ◌/◌, refl, String, Bool, true, false, some, List,
  [], ◌∷◌, any, get_elem?, nat_eq, arith,
}
use dp1_feed_v.Fetcher.{
  Addr, v4, v6, Prefix, unmap, without_zone, contains, non_global_prefixes, blocked_addr,
}

any-get_elem? :
    {A : Type 0} (p : A → Bool) (xs : List A) (i : ℕ) (x : A)
    → get_elem? xs i ≡ some x
    → p x ≡ true
    → any p xs ≡ true
any-get_elem? p [] i x h k = cc
any-get_elem? p (y ∷ xs) zero x h k = ground arith
any-get_elem? p (y ∷ xs) (suc i) x h k = ground (arith, any-get_elem? p xs i x h k)

nat_eq-later : (x : ℕ) → 65536 ≤ x → nat_eq x 0xffff ≡ false
nat_eq-later x h = ground arith

unmap-mapped :
    (n : ℕ) (zone : String) → n < 4294967296 → unmap (v6 (0xffff * 4294967296 + n) zone) ≡ v4 n
unfolding unmap
unmap-mapped n zone h =
    let quotient : (0xffff * 4294967296 + n) / 4294967296 ≡ 0xffff = omega arith in
    let rest : 0xffff * 4294967296 + n - 0xffff * 4294967296 ≡ n = omega arith in
    rw (quotient, rest)

-- An IPv4-mapped IPv6 address, in any zone, is refused exactly if the IPv4 address is.
pub blocked_addr-mapped :
    (n : ℕ) (zone : String)
    → n < 4294967296
    → blocked_addr (v6 (0xffff * 4294967296 + n) zone) ≡ blocked_addr (v4 n)
unfolding blocked_addr
blocked_addr-mapped n zone h =
    ap (λ (a : Addr). any (λ p. contains p (without_zone a)) non_global_prefixes)
      (unmap-mapped n zone h)

-- One prefix that contains an address which is not IPv4-mapped, in whatever zone.
blocked_addr-contains :
    (x : ℕ) (zone : String) (i : ℕ) (p : Prefix)
    → get_elem? non_global_prefixes i ≡ some p
    → contains p (v6 x "") ≡ true
    → nat_eq (x / 4294967296) 0xffff ≡ false
    → blocked_addr (v6 x zone) ≡ true
unfolding blocked_addr unmap without_zone
blocked_addr-contains x zone i p at_i inside plain =
    rw plain (any-get_elem? (λ q. contains q (v6 x "")) non_global_prefixes i p at_i inside)

-- In any zone, every address of the four other forms that carry an IPv4 address is refused: IPv4-compatible,
-- IPv4-translated, NAT64, and 6to4 with any rest.
pub blocked_addr-embedded :
    (n : ℕ) (rest : ℕ) (zone : String)
    → n < 4294967296
    → rest < 1208925819614629174706176
    → (blocked_addr (v6 n zone) ≡ true)
      × (blocked_addr (v6 (0xffff * 281474976710656 + n) zone) ≡ true)
      × (blocked_addr (v6 (0x64ff9b * 79228162514264337593543950336 + n) zone) ≡ true)
      × (blocked_addr (v6 ((0x2002 * 4294967296 + n) * 1208925819614629174706176 + rest) zone)
          ≡ true)
unfolding contains non_global_prefixes
blocked_addr-embedded n rest zone h k =
    let q0 : n / 4294967296 ≡ 0 = omega arith in
    let q1 : (0xffff * 281474976710656 + n) / 4294967296 ≡ 4294901760 = omega arith in
    let q2 : (0x64ff9b * 79228162514264337593543950336 + n) / 4294967296
        ≡ 0x64ff9b * 18446744073709551616 =
      omega arith in
    let q3 : ((0x2002 * 4294967296 + n) * 1208925819614629174706176 + rest)
          / 5192296858534827628530496329220096
        ≡ 0x2002 =
      omega arith in
    (
      blocked_addr-contains n zone 17 _ refl (rw q0 refl) (rw q0 refl),
      blocked_addr-contains (0xffff * 281474976710656 + n) zone 18 _ refl (rw q1 refl) (rw q1 refl),
      blocked_addr-contains (0x64ff9b * 79228162514264337593543950336 + n) zone 19 _ refl
          (rw q2 refl) (rw q2 refl),
      blocked_addr-contains ((0x2002 * 4294967296 + n) * 1208925819614629174706176 + rest) zone 24 _
          refl (rw q3 refl) (nat_eq-later _ (omega arith)),
    )
