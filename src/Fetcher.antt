-- ===== src/Fetcher.antt =====
-- internal/fetcher/fetcher.go: the addresses that the feed refuses to contact, the URLs that it refuses
-- to fetch, and `FetchPlaylist` over a network that answers each URL. Of net/http the client's use of its
-- hooks is modelled: the dial guard on every connection, and `CheckRedirect` before every further request.
pub mod Addresses
pub mod Chains
use dp1_feed_v.Shared.{
  ℕ, ℤ, pos, negsuc, leb, zero, suc, ◌+◌, ◌*◌, ◌-◌, ◌/◌, ◌^◌, String, Bool, true, false, not, ◌&&◌,
  ◌||◌, ◌==◌, Option, none, some, List, [], ◌∷◌, any, length, take, nat_eq, ltb, if◌then◌else◌, ok,
  err, require, ◌>>=◌, ◌>>◌, trim_space, equal_fold,
}
use dp1_feed_v.Errors.{Error, Result, blocked_destination, status_error, oversized_error}
use dp1_feed_v.Models.{Bytes}
use dp1_feed_v.Auth.{or_error}

-- `netip.Addr`; an IPv6 address has a zone, which may be empty.
pub data Addr : Type 0 where
  invalid : Addr
  v4 : ℕ → Addr
  v6 : ℕ → String → Addr

-- `netip.Prefix`: the first `bits` bits of an address.
pub record Prefix : Type 0 where
  pub is_v4 : Bool
  pub addr : ℕ
  pub bits : ℕ

-- `Addr.Unmap`: ::ffff:a.b.c.d becomes a.b.c.d, without its zone.
unfoldable pub unmap : Addr → Addr
unmap invalid = invalid
unmap (v4 n) = v4 n
unmap (v6 n zone) =
    if nat_eq (n / 4294967296) 0xffff then v4 (n - 0xffff * 4294967296) else v6 n zone

-- `Addr.WithZone("")`
unfoldable pub without_zone : Addr → Addr
without_zone invalid = invalid
without_zone (v4 n) = v4 n
without_zone (v6 n zone) = v6 n ""

-- `Prefix.Contains`, which never holds of a zoned address or of one of the other family.
unfoldable pub contains : Prefix → Addr → Bool
contains p invalid = false
contains p (v4 n) = p.is_v4 && nat_eq (n / 2 ^ (32 - p.bits)) (p.addr / 2 ^ (32 - p.bits))
contains p (v6 n zone) =
    not p.is_v4 && zone == "" && nat_eq (n / 2 ^ (128 - p.bits)) (p.addr / 2 ^ (128 - p.bits))

abbrev v4_prefix : ℕ → ℕ → ℕ → ℕ → ℕ → Prefix
v4_prefix a b c d n = record { is_v4 = true; addr = ((a * 256 + b) * 256 + c) * 256 + d; bits = n }

-- An IPv6 address by the first three of its eight groups, and the fifth; the others are 0.
abbrev v6_prefix : ℕ → ℕ → ℕ → ℕ → ℕ → Prefix
v6_prefix a b c e n = record {
  is_v4 = false;
  addr = (((a * 65536 + b) * 65536 + c) * 4294967296 + e) * 281474976710656;
  bits = n;
}

-- `nonGlobalPrefixes`
unfoldable pub non_global_prefixes : List Prefix
non_global_prefixes =
    v4_prefix 0 0 0 0 8
    ∷ v4_prefix 10 0 0 0 8
    ∷ v4_prefix 100 64 0 0 10
    ∷ v4_prefix 127 0 0 0 8
    ∷ v4_prefix 169 254 0 0 16
    ∷ v4_prefix 172 16 0 0 12
    ∷ v4_prefix 192 0 0 0 24
    ∷ v4_prefix 192 0 2 0 24
    ∷ v4_prefix 192 31 196 0 24
    ∷ v4_prefix 192 52 193 0 24
    ∷ v4_prefix 192 88 99 0 24
    ∷ v4_prefix 192 168 0 0 16
    ∷ v4_prefix 198 18 0 0 15
    ∷ v4_prefix 198 51 100 0 24
    ∷ v4_prefix 203 0 113 0 24
    ∷ v4_prefix 224 0 0 0 4
    ∷ v4_prefix 240 0 0 0 4
    ∷ v6_prefix 0 0 0 0 96
    ∷ v6_prefix 0 0 0 0xffff 96
    ∷ v6_prefix 0x64 0xff9b 0 0 96
    ∷ v6_prefix 0x64 0xff9b 1 0 48
    ∷ v6_prefix 0x100 0 0 0 64
    ∷ v6_prefix 0x2001 0 0 0 23
    ∷ v6_prefix 0x2001 0xdb8 0 0 32
    ∷ v6_prefix 0x2002 0 0 0 16
    ∷ v6_prefix 0x3fff 0 0 0 20
    ∷ v6_prefix 0xfc00 0 0 0 7
    ∷ v6_prefix 0xfe80 0 0 0 10
    ∷ v6_prefix 0xfec0 0 0 0 10
    ∷ v6_prefix 0xff00 0 0 0 8
    ∷ []

abbrev is_valid : Addr → Bool
is_valid invalid = false
is_valid (v4 n) = true
is_valid (v6 n zone) = true

unfoldable pub blocked_addr : Addr → Bool
unfolding unmap without_zone contains non_global_prefixes
blocked_addr a =
    not (is_valid a) || any (λ p. contains p (without_zone (unmap a))) non_global_prefixes

-- The parts of a `*url.URL` that are looked at.
pub record Url : Type 0 where
  pub scheme : String
  pub hostname : String
  pub has_user : Bool

abbrev pub blocked : Error
blocked = blocked_destination ∷ []

unfoldable pub validate_fetch_url : Url → Result (Unit {0})
validate_fetch_url u = do
  require (equal_fold u.scheme "http" || equal_fold u.scheme "https") blocked
  require (not (trim_space u.hostname == "")) blocked
  require (not u.has_user) blocked

-- An answer's body is what arrives of it, after which the stream ends or breaks.
pub record Response : Type 0 where
  pub status_code : ℕ
  pub body : Bytes
  pub breaks : Bool

pub data Answer : Type 0 where
  unreachable : Answer
  redirected : Url → Answer
  answered : Response → Answer

-- `url.Parse`, `net.SplitHostPort`, `netip.ParseAddr`, and for each URL the address that is dialled and
-- what comes back.
pub record Network : Type 0 where
  pub parse_url : String → Option Url
  pub split_host : String → Option String
  pub parse_addr : String → Option Addr
  pub dialled : Url → String
  pub answer : Url → Answer

-- `HTTPFetcher`, its limit an int64, and the option `AllowPrivateDestinations`.
pub record HttpFetcher : Type 0 where
  pub max : ℤ
  pub allow_private : Bool

abbrev pub max_fetch_redirects : ℕ
max_fetch_redirects = 5

-- The largest int64, where `max + 1` wraps to a negative limit.
abbrev pub last_int64 : ℕ
last_int64 = 9223372036854775807

-- `io.ReadAll` of a reader limited to `max + 1` bytes; a limit that is not positive reads nothing.
unfoldable pub read_limited : ℤ → Response → Result Bytes
read_limited (negsuc n) r = ok []
read_limited (pos max) r =
    if leb last_int64 max
    then ok []
    else if ltb max (length r.body)
    then ok (take (suc max) r.body)
    else do require (not r.breaks) []; ok r.body

-- `int64(len(b)) > f.max`
unfoldable pub exceeds : ℕ → ℤ → Bool
exceeds n (negsuc k) = true
exceeds n (pos max) = ltb max n

module _ (net : Network) where
  unfoldable pub check_dial_address : String → Result (Unit {0})
  check_dial_address address = do
    host ← or_error blocked (net.split_host address)
    addr ← or_error blocked (net.parse_addr host)
    require (not (blocked_addr addr)) blocked

  -- The dialer's `Control` hook.
  unfoldable pub control : HttpFetcher → String → Result (Unit {0})
  unfolding check_dial_address
  control f address = if f.allow_private then ok tt else check_dial_address address

  -- `CheckRedirect`, where `left` more requests may be made: `max_fetch_redirects - len(via)`.
  unfoldable pub check_redirect : ℕ → Url → Result (Unit {0})
  check_redirect zero u = err blocked
  check_redirect (suc left) u = validate_fetch_url u

  -- `client.Do`, with `left` requests to make. A failure other than a refusal has no sentinel.
  unfoldable pub client_do : HttpFetcher → ℕ → Url → Result Response
  unfolding control check_redirect
  client_do f zero u = err blocked
  client_do f (suc left) u =
      let next = λ (v : Url). client_do f left v in
      control f (net.dialled u) >> elim (net.answer u) [
        | unreachable ↦ err []
        | redirected v ↦ check_redirect left v >> next v
        | answered r ↦ ok r
      ]

  unfoldable pub fetch_playlist : HttpFetcher → String → Result Bytes
  unfolding client_do read_limited exceeds
  fetch_playlist f uri = do
    u ← or_error blocked (net.parse_url (trim_space uri))
    validate_fetch_url u
    r ← client_do f max_fetch_redirects u
    require (nat_eq r.status_code 200) (status_error r.status_code ∷ [])
    b ← read_limited f.max r
    require (not (exceeds (length b) f.max)) (oversized_error ∷ [])
    ok b
