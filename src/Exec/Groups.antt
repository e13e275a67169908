-- ===== src/Exec/Groups.antt =====
-- `CreatePlaylistGroup` and `ReplacePlaylistGroup`. A replace is given three states: at the read, at the
-- resolution of the references, and at the write.
pub mod Laws
use dp1_feed_v.Shared.{String, Option, List, [], ◌∷◌, ok, err, ◌>>=◌, ◌>>◌}
use dp1_feed_v.Errors.{Result, no_valid_curator_signature, not_resource_owner}
use dp1_feed_v.Models.{
  Bytes, UuidValue, Time, Group, GroupRequest, SignedIntent, role_curator, action_replace,
  target_playlist_group,
}
use dp1_feed_v.Platform.{Platform, ValidatorSigner, lift}
use dp1_feed_v.Owner.{
  KeySet, owner_set, require_unambiguous_owner, require_group_curator_consistent,
  stored_group_owner_set, require_owners_retained, require_owner_signature,
}
use dp1_feed_v.Auth.{
  SignedIdentity, or_error, require_signatures, new_signed_identity, must_match_stored,
  accept_verified, verify_intent,
}
use dp1_feed_v.Store
use dp1_feed_v.Store.{Db, GroupRecord, ContainerInput}
use dp1_feed_v.Exec.Settings.{Impl, Call}
use dp1_feed_v.Exec.Steps.{verify_owner_signatures}
use dp1_feed_v.Exec.References.{Fetcher, Snapshots, resolve_playlist_uris}

-- The record that a create or replace returns.
pub record SignedGroup : Type 0 where
  pub id : UuidValue
  pub slug : String
  pub raw : Bytes
  pub body : Group

-- What a replace knows once the request is authorized.
pub record AuthorizedGroup : Type 0 where
  pub target : GroupRecord
  pub stored : KeySet
  pub signed : Bytes
  pub body : Group

module _ (dp1 : ValidatorSigner) where
  unfoldable pub sign_and_validate_playlist_group : Bytes → Time → Result (Bytes × Group)
  sign_and_validate_playlist_group raw ts = do
    signed ← lift (dp1.sign_playlist_group raw ts)
    parsed ← lift (dp1.validate_playlist_group signed)
    group ← or_error [] parsed
    ok (signed, group)

module _ (p : Platform) (dp1 : ValidatorSigner) (e : Impl) (call : Call) where
  -- `CreatePlaylistGroup` up to the resolution of its references.
  unfoldable pub authorize_group_create : GroupRequest → Result (SignedIdentity × Bytes × Group)
  authorize_group_create req = do
    require_signatures req.signatures
    si ← new_signed_identity p call.now_identity req.id req.created req.slug req.raw
    require_group_curator_consistent req.curator req.signatures
    verify_owner_signatures dp1.verify_playlist_group_signatures req.raw [] role_curator
        req.signatures (no_valid_curator_signature ∷ [])
    signed ← sign_and_validate_playlist_group dp1 req.raw si.created
    ok (si, signed.0, signed.1)

  unfoldable pub create_playlist_group :
      Fetcher → GroupRequest → Snapshots → Db → Result (SignedGroup × Db)
  create_playlist_group fetch req seen db = do
    a ← authorize_group_create req
    ingested ← resolve_playlist_uris p dp1 e call fetch seen req.playlists
    db' ←
        Store.create_playlist_group p call.now_commit
          (record { id = a.0.id; slug = a.0.slug; raw = a.1; playlists = ingested }) db
    ok (record { id = a.0.id; slug = a.0.slug; raw = a.1; body = a.2 }, db')

  -- The checks of a replace over the submitted bytes.
  unfoldable pub check_group_replace :
      GroupRequest → Option SignedIntent → GroupRecord → KeySet → Result (Unit {0})
  check_group_replace req intent rec stored = do
    accept_verified (dp1.verify_playlist_group_signatures req.raw)
    require_owner_signature stored role_curator req.signatures (not_resource_owner ∷ [])
    verify_intent p dp1 e.intent_skew call.now_intent intent action_replace target_playlist_group
        rec.row.id rec.row.slug stored role_curator req.raw

  -- `ReplacePlaylistGroup` up to the resolution of its references.
  unfoldable pub authorize_group_replace :
      String → GroupRequest → Option SignedIntent → Db → Result AuthorizedGroup
  authorize_group_replace key req intent db = do
    require_signatures req.signatures
    rec ← Store.get_playlist_group p key db
    si ← new_signed_identity p call.now_identity req.id req.created req.slug req.raw
    must_match_stored p si rec.row.id rec.row.slug rec.body.created
    require_unambiguous_owner [] role_curator req.signatures
    require_group_curator_consistent req.curator req.signatures
    stored ← stored_group_owner_set rec.body
    require_owners_retained stored (owner_set [] role_curator req.signatures)
    check_group_replace req intent rec stored
    signed ← sign_and_validate_playlist_group dp1 req.raw call.now_sign
    ok (record { target = rec; stored = stored; signed = signed.0; body = signed.1 })

  unfoldable pub replace_playlist_group :
      Fetcher
      → String
      → GroupRequest
      → Option SignedIntent
      → Db
      → Snapshots
      → Db
      → Result (SignedGroup × Db)
  replace_playlist_group fetch key req intent db seen db' = do
    a ← authorize_group_replace key req intent db
    ingested ← resolve_playlist_uris p dp1 e call fetch seen req.playlists
    done ←
        Store.update_playlist_group p call.now_commit (p.show_uuid a.target.row.id)
          (record { id = 0; slug = ""; raw = a.signed; playlists = ingested })
          a.target.row.updated_at db'
    ok (
      record { id = a.target.row.id; slug = a.target.row.slug; raw = a.signed; body = a.body },
      done,
    )
