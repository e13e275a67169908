-- ===== src/Exec/Steps.antt =====
-- Steps that the mutating methods share: the owner check of a create, and the co-signature.
use dp1_feed_v.Shared.{String, Bool, Option, List, [], ◌∷◌, ok, Outcome, ◌>>=◌, ◌>>◌, if◌then◌else◌}
use dp1_feed_v.Errors.{Error, Result, LibraryError, no_valid_curator_signature}
use dp1_feed_v.Models.{Bytes, Time, Signature, Entity, Playlist, role_curator}
use dp1_feed_v.Platform.{ValidatorSigner, lift}
use dp1_feed_v.Owner.{
  KeySet, entity_key_set, owner_set, require_unambiguous_owner, require_owner_signature,
}
use dp1_feed_v.Auth.{accept_verified, or_error}
use dp1_feed_v.Exec.Settings.{Impl}

-- `verifyOwnerSignatures`
unfoldable pub verify_owner_signatures :
    (Bytes → Outcome LibraryError (Bool × List Signature))
    → Bytes
    → KeySet
    → String
    → List Signature
    → Error
    → Result (Unit {0})
verify_owner_signatures verify raw declared role sigs missing = do
  require_unambiguous_owner declared role sigs
  accept_verified (verify raw)
  require_owner_signature (owner_set declared role sigs) role sigs missing

module _ (dp1 : ValidatorSigner) where
  unfoldable pub verify_playlist_owner_signatures :
      Bytes → List Signature → List Entity → Result (Unit {0})
  unfolding verify_owner_signatures
  verify_playlist_owner_signatures raw sigs curators =
      verify_owner_signatures dp1.verify_playlist_signatures raw (entity_key_set curators)
        role_curator sigs (no_valid_curator_signature ∷ [])

  unfoldable pub parse_validated_playlist : Impl → Bytes → Result (Option Playlist)
  parse_validated_playlist e raw =
      if e.extensions_enabled
      then lift (dp1.validate_playlist_with_extension raw)
      else lift (dp1.validate_playlist raw)

  unfoldable pub sign_and_validate_playlist : Impl → Bytes → Time → Result (Bytes × Playlist)
  unfolding parse_validated_playlist
  sign_and_validate_playlist e raw ts = do
    signed ← lift (dp1.sign_playlist raw ts)
    parsed ← parse_validated_playlist e signed
    pl ← or_error [] parsed
    ok (signed, pl)
