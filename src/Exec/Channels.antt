-- ===== src/Exec/Channels.antt =====
-- `CreateChannel` and `ReplaceChannel`. A replace is given three states: at the read, at the resolution of
-- the references, and at the write.
pub mod Laws
use dp1_feed_v.Shared.{String, Option, List, [], ◌∷◌, ok, err, require, ◌>>=◌, ◌>>◌}
use dp1_feed_v.Errors.{
  Result, extensions_disabled, no_valid_publisher_signature, not_resource_owner,
}
use dp1_feed_v.Models.{
  Bytes, UuidValue, Time, Channel, ChannelRequest, SignedIntent, role_publisher, action_replace,
  target_channel,
}
use dp1_feed_v.Platform.{Platform, ValidatorSigner, lift}
use dp1_feed_v.Owner.{
  KeySet, publisher_key_set, owner_set, require_unambiguous_owner, require_declaration_retained,
  require_owners_retained, require_regime_transition_consent, require_new_owner_consent,
  require_owner_signature,
}
use dp1_feed_v.Auth.{
  SignedIdentity, or_error, require_signatures, new_signed_identity, must_match_stored,
  accept_verified, verify_intent,
}
use dp1_feed_v.Store
use dp1_feed_v.Store.{Db, ChannelRecord, ContainerInput}
use dp1_feed_v.Exec.Settings.{
  Impl, Call, Event, channel_added, channel_updated, run_channel_mutation,
}
use dp1_feed_v.Exec.Steps.{verify_owner_signatures}
use dp1_feed_v.Exec.Deletes.{notify_channel}
use dp1_feed_v.Exec.References.{Fetcher, Snapshots, resolve_playlist_uris}

-- The record that a create or replace returns.
pub record SignedChannel : Type 0 where
  pub id : UuidValue
  pub slug : String
  pub raw : Bytes
  pub body : Channel

-- What a replace knows once the request is authorized.
pub record AuthorizedChannel : Type 0 where
  pub target : ChannelRecord
  pub stored : KeySet
  pub incoming : KeySet
  pub signed : Bytes
  pub body : Channel

module _ (dp1 : ValidatorSigner) where
  unfoldable pub sign_and_validate_channel : Bytes → Time → Result (Bytes × Channel)
  sign_and_validate_channel raw ts = do
    signed ← lift (dp1.sign_channel raw ts)
    parsed ← lift (dp1.validate_channel signed)
    ch ← or_error [] parsed
    ok (signed, ch)

module _ (p : Platform) (dp1 : ValidatorSigner) (e : Impl) (call : Call) where
  -- `CreateChannel` up to the resolution of its references.
  unfoldable pub authorize_channel_create :
      ChannelRequest → Result (SignedIdentity × Bytes × Channel)
  authorize_channel_create req = do
    require e.extensions_enabled (extensions_disabled ∷ [])
    require_signatures req.signatures
    si ← new_signed_identity p call.now_identity req.id req.created req.slug req.raw
    verify_owner_signatures dp1.verify_channel_signatures req.raw (publisher_key_set req.publisher)
        role_publisher req.signatures (no_valid_publisher_signature ∷ [])
    signed ← sign_and_validate_channel dp1 req.raw si.created
    ok (si, signed.0, signed.1)

  unfoldable pub create_channel :
      Fetcher → ChannelRequest → Snapshots → Db → Result (SignedChannel × Db × List Event)
  create_channel fetch req seen db = do
    a ← authorize_channel_create req
    ingested ← resolve_playlist_uris p dp1 e call fetch seen req.playlists
    db' ← run_channel_mutation e call (
        Store.create_channel p call.now_commit
          (record { id = a.0.id; slug = a.0.slug; raw = a.1; playlists = ingested }) db)
    ok (
      record { id = a.0.id; slug = a.0.slug; raw = a.1; body = a.2 },
      db',
      notify_channel e channel_added a.0.id,
    )

  -- The checks of a replace on the owner sets and on the intent.
  unfoldable pub check_channel_replace :
      ChannelRequest → Option SignedIntent → ChannelRecord → KeySet → KeySet → Result (Unit {0})
  check_channel_replace req intent rec stored incoming = do
    accept_verified (dp1.verify_channel_signatures req.raw)
    require_regime_transition_consent (publisher_key_set rec.body.publisher)
        (publisher_key_set req.publisher) stored role_publisher req.signatures
    require_new_owner_consent stored incoming role_publisher req.signatures
    require_owner_signature stored role_publisher req.signatures (not_resource_owner ∷ [])
    verify_intent p dp1 e.intent_skew call.now_intent intent action_replace target_channel
        rec.row.id rec.row.slug stored role_publisher req.raw

  -- `ReplaceChannel` up to the resolution of its references.
  unfoldable pub authorize_channel_replace :
      String → ChannelRequest → Option SignedIntent → Db → Result AuthorizedChannel
  authorize_channel_replace key req intent db = do
    require e.extensions_enabled (extensions_disabled ∷ [])
    require_signatures req.signatures
    rec ← Store.get_channel p key db
    si ← new_signed_identity p call.now_identity req.id req.created req.slug req.raw
    must_match_stored p si rec.row.id rec.row.slug rec.body.created
    let declared = publisher_key_set rec.body.publisher
    let declares = publisher_key_set req.publisher
    require_declaration_retained declared declares
    require_unambiguous_owner declares role_publisher req.signatures
    let stored = owner_set declared role_publisher rec.body.signatures
    let incoming = owner_set declares role_publisher req.signatures
    require_owners_retained stored incoming
    check_channel_replace req intent rec stored incoming
    signed ← sign_and_validate_channel dp1 req.raw call.now_sign
    ok (record {
      target = rec;
      stored = stored;
      incoming = incoming;
      signed = signed.0;
      body = signed.1;
    })

  unfoldable pub replace_channel :
      Fetcher
      → String
      → ChannelRequest
      → Option SignedIntent
      → Db
      → Snapshots
      → Db
      → Result (SignedChannel × Db × List Event)
  replace_channel fetch key req intent db seen db' = do
    a ← authorize_channel_replace key req intent db
    ingested ← resolve_playlist_uris p dp1 e call fetch seen req.playlists
    done ← run_channel_mutation e call (
        Store.update_channel p call.now_commit (p.show_uuid a.target.row.id)
          (record { id = 0; slug = ""; raw = a.signed; playlists = ingested })
          a.target.row.updated_at db')
    ok (
      record { id = a.target.row.id; slug = a.target.row.slug; raw = a.signed; body = a.body },
      done,
      notify_channel e channel_updated a.target.row.id,
    )
