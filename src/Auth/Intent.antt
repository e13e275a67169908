-- ===== src/Auth/Intent.antt =====
-- `verifyIntent` and the checks that it makes, in the source's order; the clock is an argument.
use dp1_feed_v.Shared.{
  String, Bool, true, false, not, ◌||◌, Option, none, some, List, [], ◌∷◌, ◌+◌, ◌*◌, ◌^◌, ◌==◌,
  nat_eq, ltb, if◌then◌else◌, Outcome, ok, err, require, wrap, ◌>>=◌, ◌>>◌, trim_space, equal_fold,
}
use dp1_feed_v.Errors.{
  Result, LibraryError, intent_invalid, invalid_timestamp, signature_verification_failed,
  not_resource_owner,
}
use dp1_feed_v.Models.{Bytes, UuidValue, Time, Signature, SignedIntent}
use dp1_feed_v.Platform.{Platform, ValidatorSigner, lift}
use dp1_feed_v.Owner.{KeySet, require_owner_signature}
use dp1_feed_v.Auth.Identity.{or_error, require_signatures}

-- `5 * time.Minute`
abbrev pub default_intent_skew : Time
default_intent_skew = 5 * 60 * 10 ^ 9

abbrev pub is_empty {ℓ} : {A : Type ℓ} → List A → Bool
is_empty [] = true
is_empty (x ∷ xs) = false

-- `created` must be within the window on both sides of `now`. A skew of 0 stands for the source's
-- non-positive one.
module _ (p : Platform) where
  unfoldable pub require_fresh_intent_timestamp : Time → Time → String → Result (Unit {0})
  require_fresh_intent_timestamp skew now created = do
    t ← or_error (invalid_timestamp ∷ []) (p.parse_rfc3339 (trim_space created))
    let window = if nat_eq skew 0 then default_intent_skew else skew
    if ltb (t + window) now || ltb (now + window) t then err (invalid_timestamp ∷ []) else ok tt

  unfoldable pub intent_declares_payload_hash : SignedIntent → Bool
  intent_declares_payload_hash intent =
      if is_empty intent.raw
      then not (trim_space intent.payload_hash == "")
      else elim (p.declares_payload_hash intent.raw) [ none ↦ true | some declared ↦ declared ]

-- `ok, failed, err := verify(raw)`: an error of the verifier, or an entry that fails, is a failure.
unfoldable pub accept_verified : Outcome LibraryError (Bool × List Signature) → Result (Unit {0})
accept_verified verdict = do
  outcome ← wrap (λ e. signature_verification_failed ∷ e) (lift verdict)
  require outcome.0 (signature_verification_failed ∷ [])

module _ (p : Platform) (dp1 : ValidatorSigner) where
  unfoldable pub require_intent_binds_document : SignedIntent → Bytes → Result (Unit {0})
  require_intent_binds_document intent [] =
      if intent_declares_payload_hash p intent then err (intent_invalid ∷ []) else ok tt
  require_intent_binds_document intent (b ∷ doc) = do
    want ← wrap (λ e. intent_invalid ∷ e) (lift (dp1.payload_hash (b ∷ doc)))
    require (equal_fold (trim_space intent.payload_hash) want) (intent_invalid ∷ [])

  -- The checks on an intent that is there, in order.
  unfoldable pub verify_intent :
      Time
      → Time
      → Option SignedIntent
      → String
      → String
      → UuidValue
      → String
      → KeySet
      → String
      → Bytes
      → Result (Unit {0})
  verify_intent skew now none action kind stored_id stored_slug owners role doc =
      err (intent_invalid ∷ [])
  verify_intent skew now (some intent) action kind stored_id stored_slug owners role doc = do
    require (not (is_empty intent.raw)) (intent_invalid ∷ [])
    require (intent.action == action) (intent_invalid ∷ [])
    require (intent.target.kind == kind) (intent_invalid ∷ [])
    require (trim_space intent.target.id == p.show_uuid stored_id) (intent_invalid ∷ [])
    require (intent.target.slug == stored_slug) (intent_invalid ∷ [])
    require_intent_binds_document intent doc
    require_fresh_intent_timestamp p skew now intent.created
    require_signatures intent.signatures
    accept_verified (dp1.verify_signatures intent.raw)
    require_owner_signature owners role intent.signatures (not_resource_owner ∷ [])
