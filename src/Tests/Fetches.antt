-- ===== src/Tests/Fetches.antt =====
-- A network of three URLs, one of which redirects to another, and some addresses.
use dp1_feed_v.Shared.{
  pos, ◌+◌, ◌*◌, ◌≡◌, ◌↔◌, refl, true, false, ◌==◌, some, none, [], ◌∷◌, if◌then◌else◌, ok,
  trim_space, equal_fold, arith,
}
use dp1_feed_v.Fetcher.{
  Url, Response, redirected, answered, Network, HttpFetcher, v4, v6, blocked_addr,
  validate_fetch_url, fetch_playlist,
}
use dp1_feed_v.Fetcher.Addresses.{blocked_addr-embedded}
use dp1_feed_v.Fetcher.Chains.{IsFetched, fetch_playlist_iff}

abbrev old_home : Url
old_home = record { scheme = "http"; hostname = "old.example"; has_user = false }

abbrev new_home : Url
new_home = record { scheme = "HTTPS"; hostname = "new.example"; has_user = false }

abbrev three_bytes : Response
three_bytes = record { status_code = 200; body = 1 ∷ 2 ∷ 3 ∷ []; breaks = false }

abbrev small_net : Network
small_net = record {
  parse_url = λ s. if s == "http://old.example" then some old_home else none;
  split_host = λ s. some s;
  parse_addr = λ s. if s == "one" then some (v4 16843009) else none;
  dialled = λ u. "one";
  answer = λ u. if u.hostname == "old.example" then redirected new_home else answered three_bytes;
}

abbrev strict : HttpFetcher
strict = record { max = pos 3; allow_private = false }

fetch_playlist_iff_example :
    (fetch_playlist small_net strict " http://old.example" ≡ ok (1 ∷ 2 ∷ 3 ∷ []))
    ↔ IsFetched small_net strict " http://old.example" (1 ∷ 2 ∷ 3 ∷ [])
fetch_playlist_iff_example =
    fetch_playlist_iff small_net strict " http://old.example" (1 ∷ 2 ∷ 3 ∷ [])

-- The redirect is followed.
fetched : fetch_playlist small_net strict " http://old.example" ≡ ok (1 ∷ 2 ∷ 3 ∷ [])
unfolding fetch_playlist trim_space validate_fetch_url equal_fold blocked_addr
fetched = refl

loopback : blocked_addr (v4 2130706433) ≡ true
unfolding blocked_addr
loopback = refl

public_address : blocked_addr (v4 16843009) ≡ false
unfolding blocked_addr
public_address = refl

blocked_addr-embedded_example :
    (blocked_addr (v6 16843009 "") ≡ true)
    × (blocked_addr (v6 (0xffff * 281474976710656 + 16843009) "") ≡ true)
    × (blocked_addr (v6 (0x64ff9b * 79228162514264337593543950336 + 16843009) "") ≡ true)
    × (blocked_addr (v6 ((0x2002 * 4294967296 + 16843009) * 1208925819614629174706176 + 1) "")
        ≡ true)
blocked_addr-embedded_example = blocked_addr-embedded 16843009 1 "" (omega arith) (omega arith)
