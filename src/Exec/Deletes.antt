-- ===== src/Exec/Deletes.antt =====
-- `DeletePlaylistGroup` and `DeleteChannel`.
use dp1_feed_v.Shared.{String, Option, List, [], ◌∷◌, ok, require, ◌>>=◌, ◌>>◌, if◌then◌else◌}
use dp1_feed_v.Errors.{Result, extensions_disabled}
use dp1_feed_v.Models.{
  UuidValue, SignedIntent, role_curator, role_publisher, action_delete, target_playlist_group,
  target_channel,
}
use dp1_feed_v.Platform.{Platform, ValidatorSigner}
use dp1_feed_v.Owner.{publisher_key_set, owner_set, stored_group_owner_set}
use dp1_feed_v.Auth.{verify_intent}
use dp1_feed_v.Store
use dp1_feed_v.Store.{Db, GroupRecord, ChannelRecord}
use dp1_feed_v.Exec.Settings.{Impl, Call, Event, EventType, channel_deleted, run_channel_mutation}

-- `notifyChannel`: the one event is sent under the delivery context, whatever its state.
unfoldable pub notify_channel : Impl → EventType → UuidValue → List Event
notify_channel e type id = if e.notified then record { type = type; channel = id } ∷ [] else []

module _ (p : Platform) (dp1 : ValidatorSigner) (e : Impl) (call : Call) where
  unfoldable pub delete_playlist_group : String → Option SignedIntent → Db → Db → Result Db
  delete_playlist_group key intent db db' = do
    rec ← Store.get_playlist_group p key db
    owners ← stored_group_owner_set rec.body
    verify_intent p dp1 e.intent_skew call.now_intent intent action_delete target_playlist_group
        rec.row.id rec.row.slug owners role_curator []
    Store.delete_playlist_group p (p.show_uuid rec.row.id) rec.row.updated_at db'

  unfoldable pub delete_channel : String → Option SignedIntent → Db → Db → Result (Db × List Event)
  delete_channel key intent db db' = do
    require e.extensions_enabled (extensions_disabled ∷ [])
    rec ← Store.get_channel p key db
    let owners = owner_set (publisher_key_set rec.body.publisher) role_publisher rec.body.signatures
    verify_intent p dp1 e.intent_skew call.now_intent intent action_delete target_channel rec.row.id
        rec.row.slug owners role_publisher []
    done ←
        run_channel_mutation e call
          (Store.delete_channel p (p.show_uuid rec.row.id) rec.row.updated_at db')
    ok (done, notify_channel e channel_deleted rec.row.id)
