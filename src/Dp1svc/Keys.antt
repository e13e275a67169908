-- ===== src/Dp1svc/Keys.antt =====
-- internal/dp1svc/dp1svc.go, the feed's signing key: `Ed25519PrivateKeyFromHex` and `New`. Hexadecimal and
-- `crypto/ed25519` are given as functions.
use dp1_feed_v.Shared.{
  String, ◌==◌, Option, none, some, Outcome, ok, err, length, nat_eq, if◌then◌else◌, not, require,
  ◌>>◌, ◌>>=◌,
}
use dp1_feed_v.Models.{Bytes}

pub record Ed25519 : Type 0 where
  pub decode_hex : String → Option Bytes
  pub new_key_from_seed : Bytes → Bytes
  pub public : Bytes → Bytes
  pub did_key : Bytes → Option String

pub data KeyError : Type 0 where
  signing_key_required : KeyError
  signing_key_not_hex : KeyError
  signing_key_length : KeyError
  signing_kid_required : KeyError
  signing_kid_not_derived : KeyError

sized_key : Ed25519 → Bytes → Outcome KeyError Bytes
sized_key e raw =
    if nat_eq (length raw) 32
    then ok (e.new_key_from_seed raw)
    else if nat_eq (length raw) 64
    then ok raw
    else err signing_key_length

decoded_key : Ed25519 → Option Bytes → Outcome KeyError Bytes
unfolding sized_key
decoded_key e none = err signing_key_not_hex
decoded_key e (some raw) = sized_key e raw

unfoldable pub ed25519_private_key_from_hex : Ed25519 → String → Outcome KeyError Bytes
unfolding decoded_key
ed25519_private_key_from_hex e text =
    if text == "" then err signing_key_required else decoded_key e (e.decode_hex text)

pub record Service : Type 0 where
  pub priv : Bytes
  pub kid : String

unfoldable pub new_service : Ed25519 → String → String → Outcome KeyError Service
new_service e text kid = ed25519_private_key_from_hex e text >>= λ (priv : Bytes).
    require (not (kid == "")) signing_kid_required >> ok (record { priv = priv; kid = kid })
