-- ===== src/Tests/Removals.antt =====
-- A group and a channel that their owner deletes.
use dp1_feed_v.Shared.{◌≡◌, refl, some, [], ◌∷◌, ok, trim_space}
use dp1_feed_v.Models.{
  Row, Signature, SignedIntent, target_playlist_group, target_channel, role_publisher,
}
use dp1_feed_v.Owner.{
  add_key, client_signer_key_set, client_signers, has, legacy_group_owner, owner_set,
  publisher_key_set, require_owner_signature, role_signers, signed_by_owner, stored_group_owner_set,
}
use dp1_feed_v.Auth.{
  accept_verified, intent_declares_payload_hash, require_fresh_intent_timestamp,
  require_intent_binds_document, require_signatures, verify_intent,
}
use dp1_feed_v.Store
use dp1_feed_v.Store.{
  Db, delete_document, find_document, find_id, get_channel, get_playlist_group, holds,
  members_of_others, remove_id, resolve_document_id,
}
use dp1_feed_v.Exec.{
  Event, EventType, delete_channel, delete_playlist_group, notify_channel, run_channel_mutation,
}
use dp1_feed_v.Exec.Removals.{
  IsChannelDeleted, IsGroupDeleted, delete_channel-IsChannelDeleted,
  delete_playlist_group-IsGroupDeleted,
}
use dp1_feed_v.Tests.World.{
  alice, call, count_sevens, count_sevens-sevens, delete_intent, dp1, libraries, one_playlist,
  settings, sevens,
}

abbrev radio : Row
radio = record { id = 3; slug = "radio"; raw = 7 ∷ []; created_at = 100; updated_at = 200 }

abbrev with_group : Db
with_group = record one_playlist { groups = record { rows = radio ∷ []; deleted = [] } }

abbrev with_channel : Db
with_channel = record one_playlist { channels = record { rows = radio ∷ []; deleted = [] } }

abbrev without_group : Db
without_group = record one_playlist { groups = record { rows = []; deleted = 3 ∷ [] } }

abbrev without_channel : Db
without_channel = record one_playlist { channels = record { rows = []; deleted = 3 ∷ [] } }

abbrev group_intent : SignedIntent
group_intent = record delete_intent {
  target = record { kind = target_playlist_group; id = "777"; slug = "radio" };
}

abbrev publisher : Signature
publisher = record alice { role = role_publisher }

abbrev channel_intent : SignedIntent
channel_intent = record delete_intent {
  target = record { kind = target_channel; id = "777"; slug = "radio" };
  signatures = publisher ∷ [];
}

abbrev farewell : Event
farewell = record { type = EventType.channel_deleted; channel = 3 }

group_delete_runs :
    delete_playlist_group libraries dp1 settings call "777"
      (some group_intent)
      with_group
      with_group
    ≡ ok without_group
unfolding delete_playlist_group get_playlist_group find_document find_id stored_group_owner_set
    legacy_group_owner client_signer_key_set client_signers owner_set role_signers add_key has
    trim_space verify_intent intent_declares_payload_hash require_intent_binds_document
    require_fresh_intent_timestamp require_signatures accept_verified require_owner_signature
    signed_by_owner Store.delete_playlist_group resolve_document_id delete_document remove_id holds
    members_of_others sevens count_sevens
group_delete_runs = refl

delete_playlist_group-IsGroupDeleted_example :
    IsGroupDeleted libraries dp1 settings call "777"
      (some group_intent)
      with_group
      with_group
      without_group
delete_playlist_group-IsGroupDeleted_example =
    delete_playlist_group-IsGroupDeleted libraries dp1 settings call "777" (some group_intent)
      with_group with_group without_group count_sevens-sevens group_delete_runs

channel_delete_runs :
    delete_channel libraries dp1 settings call "777" (some channel_intent) with_channel with_channel
    ≡ ok (without_channel, farewell ∷ [])
unfolding delete_channel get_channel find_document find_id publisher_key_set owner_set add_key has
    trim_space verify_intent intent_declares_payload_hash require_intent_binds_document
    require_fresh_intent_timestamp require_signatures accept_verified require_owner_signature
    signed_by_owner run_channel_mutation Store.delete_channel resolve_document_id delete_document
    remove_id holds members_of_others notify_channel sevens count_sevens
channel_delete_runs = refl

delete_channel-IsChannelDeleted_example :
    IsChannelDeleted libraries dp1 settings call "777"
      (some channel_intent)
      with_channel
      with_channel
      without_channel
delete_channel-IsChannelDeleted_example =
    delete_channel-IsChannelDeleted libraries dp1 settings call "777" (some channel_intent)
      with_channel with_channel without_channel (farewell ∷ []) count_sevens-sevens
      channel_delete_runs
