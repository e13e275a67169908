-- ===== src/Exec/Playlists.antt =====
-- `CreatePlaylist`, `ReplacePlaylist` and `DeletePlaylist`.
use dp1_feed_v.Shared.{String, Option, List, [], ◌∷◌, ok, ◌>>=◌, ◌>>◌}
use dp1_feed_v.Errors.{Result, not_resource_owner}
use dp1_feed_v.Models.{
  Bytes, UuidValue, Playlist, PlaylistRequest, SignedIntent, role_curator, action_replace,
  action_delete, target_playlist,
}
use dp1_feed_v.Platform.{Platform, ValidatorSigner}
use dp1_feed_v.Owner.{
  KeySet, entity_key_set, owner_set, require_unambiguous_owner, require_owner_signature,
  require_declaration_retained, require_owners_retained, require_regime_transition_consent,
  require_new_owner_consent,
}
use dp1_feed_v.Auth.{
  require_signatures, require_item_ids, new_signed_identity, must_match_stored, accept_verified,
  verify_intent,
}
use dp1_feed_v.Store
use dp1_feed_v.Store.{Db, PlaylistRecord}
use dp1_feed_v.Exec.Settings.{
  Impl, Call, Event, run_playlist_mutation, wants_listing_channels, notify_listing_channels,
}
use dp1_feed_v.Exec.Steps.{verify_playlist_owner_signatures, sign_and_validate_playlist}

-- The record that a create or replace returns.
pub record SignedPlaylist : Type 0 where
  pub id : UuidValue
  pub slug : String
  pub raw : Bytes
  pub body : Playlist

-- What a replace knows once the request is authorized: the row that it read, the owner sets, and the
-- co-signed document.
pub record Authorized : Type 0 where
  pub target : PlaylistRecord
  pub stored : KeySet
  pub incoming : KeySet
  pub signed : Bytes
  pub body : Playlist

module _ (p : Platform) (dp1 : ValidatorSigner) (e : Impl) (call : Call) where
  unfoldable pub create_playlist : PlaylistRequest → Db → Result (SignedPlaylist × Db)
  create_playlist req db = do
    require_signatures req.signatures
    si ← new_signed_identity p call.now_identity req.id req.created req.slug req.raw
    require_item_ids p req.items
    verify_playlist_owner_signatures dp1 req.raw req.signatures req.curators
    signed ← sign_and_validate_playlist dp1 e req.raw si.created
    db' ← Store.create_playlist p call.now_commit si.id si.slug signed.0 db
    ok (record { id = si.id; slug = si.slug; raw = signed.0; body = signed.1 }, db')

  -- The checks of a replace on the owner sets and on the intent, from the record that was read.
  unfoldable pub check_replace :
      PlaylistRequest → Option SignedIntent → PlaylistRecord → KeySet → KeySet → Result (Unit {0})
  check_replace req intent rec stored incoming = do
    accept_verified (dp1.verify_playlist_signatures req.raw)
    require_regime_transition_consent (entity_key_set rec.body.curators)
        (entity_key_set req.curators) stored role_curator req.signatures
    require_new_owner_consent stored incoming role_curator req.signatures
    require_owner_signature stored role_curator req.signatures (not_resource_owner ∷ [])
    verify_intent p dp1 e.intent_skew call.now_intent intent action_replace target_playlist
        rec.row.id rec.row.slug stored role_curator req.raw

  -- `ReplacePlaylist` up to its write, over the state at the read.
  unfoldable pub authorize_replace :
      String → PlaylistRequest → Option SignedIntent → Db → Result Authorized
  unfolding check_replace
  authorize_replace key req intent db = do
    require_signatures req.signatures
    require_item_ids p req.items
    rec ← Store.get_playlist p key db
    si ← new_signed_identity p call.now_identity req.id req.created req.slug req.raw
    must_match_stored p si rec.row.id rec.row.slug rec.body.created
    let declared = entity_key_set rec.body.curators
    let declares = entity_key_set req.curators
    require_declaration_retained declared declares
    require_unambiguous_owner declares role_curator req.signatures
    let stored = owner_set declared role_curator rec.body.signatures
    let incoming = owner_set declares role_curator req.signatures
    require_owners_retained stored incoming
    check_replace req intent rec stored incoming
    signed ← sign_and_validate_playlist dp1 e req.raw call.now_sign
    ok (record {
      target = rec;
      stored = stored;
      incoming = incoming;
      signed = signed.0;
      body = signed.1;
    })

  -- The whole of `ReplacePlaylist`: `db` is the state at the read, `db'` the state at the write.
  unfoldable pub replace_playlist :
      String
      → PlaylistRequest
      → Option SignedIntent
      → Db
      → Db
      → Result (SignedPlaylist × Db × List Event)
  unfolding authorize_replace
  replace_playlist key req intent db db' = do
    a ← authorize_replace key req intent db
    done ← run_playlist_mutation e call (
        Store.update_playlist p call.now_commit (p.show_uuid a.target.row.id) a.signed
          a.target.row.updated_at (wants_listing_channels e) call.listing_read db')
    ok (
      record { id = a.target.row.id; slug = a.target.row.slug; raw = a.signed; body = a.body },
      done.0,
      notify_listing_channels e call done.1,
    )

  unfoldable pub authorize_delete : String → Option SignedIntent → Db → Result PlaylistRecord
  authorize_delete key intent db = do
    rec ← Store.get_playlist p key db
    let owners = owner_set (entity_key_set rec.body.curators) role_curator rec.body.signatures
    verify_intent p dp1 e.intent_skew call.now_intent intent action_delete target_playlist
        rec.row.id rec.row.slug owners role_curator []
    ok rec

  unfoldable pub delete_playlist : String → Option SignedIntent → Db → Db → Result (Db × List Event)
  unfolding authorize_delete
  delete_playlist key intent db db' = do
    rec ← authorize_delete key intent db
    done ← run_playlist_mutation e call (
        Store.delete_playlist p (p.show_uuid rec.row.id) rec.row.updated_at
          (wants_listing_channels e) call.listing_read db')
    ok (done.0, notify_listing_channels e call done.1)
