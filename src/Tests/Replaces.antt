-- ===== src/Tests/Replaces.antt =====
-- Replaces of a group and a channel, run to their end.
use dp1_feed_v.Shared.{
  ◌≡◌, refl, some, [], ◌∷◌, ok, trim_space, equal_fold, byte_length, trim_suffix_slash, has_prefix,
  trim_prefix,
}
use dp1_feed_v.Models.{Row, SignedIntent, target_playlist_group, target_channel}
use dp1_feed_v.Owner.{
  add_key, entity_key_set, publisher_key_set, has, missing_from, owner_set,
  require_declaration_retained, require_new_owner_consent, require_owner_signature,
  require_owners_retained, require_regime_transition_consent, require_unambiguous_owner,
  role_signers, signed_by_owner, unsigned_owners, client_signer_key_set, client_signers,
  legacy_group_owner, stored_group_owner_set, require_group_curator_consistent,
}
use dp1_feed_v.Auth.{
  accept_verified, intent_declares_payload_hash, must_match_stored, new_signed_identity,
  parse_document_created, parse_user_provided_created, parse_user_provided_id,
  require_fresh_intent_timestamp, require_intent_binds_document, require_item_ids,
  require_signatures, require_slug, verify_intent,
}
use dp1_feed_v.Store
use dp1_feed_v.Store.{
  Db, find_id, find_slug, find_document, get_playlist, get_playlist_group, get_channel, holds,
  item_rows, next_updated_at, insert_row, insert_document, require_not_tombstoned,
  resolve_document_id, slug_taken, update_document, update_rows, insert_missing_playlists_batch,
  unique_playlist_params, insert_missing_rows, record_playlist_sources, members, members_of_others,
}
use dp1_feed_v.Exec.{
  Event, EventType, replace_playlist_group, replace_channel, authorize_group_replace,
  authorize_channel_replace, check_group_replace, check_channel_replace, sign_and_validate_playlist,
  sign_and_validate_playlist_group, sign_and_validate_channel, parse_validated_playlist,
  verify_owner_signatures, verify_playlist_owner_signatures, run_channel_mutation, notify_channel,
  distinct_keys, is_local_playlist_url, link_fetched, local_playlist_key, playlist_api_prefix,
  playlist_id_from_body, require_uri_lengths, resolve_each, resolve_one_playlist_ref,
  resolve_playlist_uris, resolved_at,
}
use dp1_feed_v.Exec.Groups.Laws.{IsGroupReplaced, replace_playlist_group-IsGroupReplaced}
use dp1_feed_v.Exec.Channels.Laws.{IsChannelReplaced, replace_channel-IsChannelReplaced}
use dp1_feed_v.Tests.World.{
  libraries, dp1, settings, call, replace_intent, one_playlist, count_sevens, sevens,
  count_sevens-sevens,
}
use dp1_feed_v.Tests.Creations.{
  web, group_request, channel_request, group_out, channel_out, publisher,
}

abbrev old_row : Row
old_row = record { id = 2; slug = "mornings"; raw = 7 ∷ []; created_at = 100; updated_at = 200 }

abbrev new_row : Row
new_row = record old_row { raw = 5 ∷ 2 ∷ []; updated_at = 1000 }

abbrev group_stored : Db
group_stored = record one_playlist { groups = record { rows = old_row ∷ []; deleted = [] } }

abbrev group_renewed : Db
group_renewed = record one_playlist {
  groups = record { rows = new_row ∷ []; deleted = [] };
  group_members = record { container = 2; playlist_id = 2; position = 0 } ∷ [];
}

abbrev group_intent : SignedIntent
group_intent = record replace_intent {
  target = record { kind = target_playlist_group; id = "77"; slug = "mornings" };
}

group_replace_runs :
    replace_playlist_group libraries dp1 settings call web "77" group_request
      (some group_intent)
      group_stored
      (λ n. group_stored)
      group_stored
    ≡ ok (group_out, group_renewed)
unfolding replace_playlist_group authorize_group_replace check_group_replace
    sign_and_validate_playlist_group get_playlist_group Store.update_playlist_group
    require_signatures require_item_ids trim_space find_id find_slug find_document
    new_signed_identity parse_user_provided_id parse_user_provided_created require_slug
    must_match_stored parse_document_created require_declaration_retained publisher_key_set
    entity_key_set add_key has require_unambiguous_owner require_owners_retained accept_verified
    intent_declares_payload_hash require_fresh_intent_timestamp require_intent_binds_document
    verify_intent owner_set role_signers missing_from require_new_owner_consent
    require_owner_signature require_regime_transition_consent signed_by_owner unsigned_owners
    equal_fold sevens count_sevens client_signer_key_set client_signers legacy_group_owner
    stored_group_owner_set require_group_curator_consistent resolve_playlist_uris
    require_uri_lengths byte_length distinct_keys resolve_each resolve_one_playlist_ref
    is_local_playlist_url playlist_api_prefix trim_suffix_slash has_prefix local_playlist_key
    trim_prefix get_playlist link_fetched playlist_id_from_body resolved_at
    insert_missing_playlists_batch unique_playlist_params holds insert_missing_rows item_rows
    record_playlist_sources update_document slug_taken update_rows next_updated_at members
    members_of_others resolve_document_id require_not_tombstoned insert_row insert_document
group_replace_runs = refl

replace_playlist_group-IsGroupReplaced_example :
    IsGroupReplaced libraries dp1 settings call web "77" group_request
      (some group_intent)
      group_stored
      (λ n. group_stored)
      group_stored
      group_out
      group_renewed
replace_playlist_group-IsGroupReplaced_example =
    replace_playlist_group-IsGroupReplaced libraries dp1 settings call web "77" group_request
      (some group_intent) group_stored (λ n. group_stored) group_stored group_out group_renewed
      count_sevens-sevens group_replace_runs

abbrev channel_stored : Db
channel_stored = record one_playlist { channels = record { rows = old_row ∷ []; deleted = [] } }

abbrev channel_renewed : Db
channel_renewed = record one_playlist {
  channels = record { rows = new_row ∷ []; deleted = [] };
  channel_members =
      record { container = 2; playlist_id = 2; position = 0 }
      ∷ record { container = 9; playlist_id = 2; position = 0 }
      ∷ [];
}

abbrev renewed : Event
renewed = record { type = EventType.channel_updated; channel = 2 }

abbrev channel_intent : SignedIntent
channel_intent = record replace_intent {
  target = record { kind = target_channel; id = "77"; slug = "mornings" };
  signatures = publisher ∷ [];
}

channel_replace_runs :
    replace_channel libraries dp1 settings call web "77" channel_request
      (some channel_intent)
      channel_stored
      (λ n. channel_stored)
      channel_stored
    ≡ ok (channel_out, channel_renewed, renewed ∷ [])
unfolding replace_channel authorize_channel_replace check_channel_replace sign_and_validate_channel
    get_channel Store.update_channel run_channel_mutation notify_channel require_signatures
    require_item_ids trim_space find_id find_slug find_document new_signed_identity
    parse_user_provided_id parse_user_provided_created require_slug must_match_stored
    parse_document_created require_declaration_retained publisher_key_set entity_key_set add_key has
    require_unambiguous_owner require_owners_retained accept_verified intent_declares_payload_hash
    require_fresh_intent_timestamp require_intent_binds_document verify_intent owner_set
    role_signers missing_from require_new_owner_consent require_owner_signature
    require_regime_transition_consent signed_by_owner unsigned_owners equal_fold sevens count_sevens
    client_signer_key_set client_signers legacy_group_owner stored_group_owner_set
    require_group_curator_consistent resolve_playlist_uris require_uri_lengths byte_length
    distinct_keys resolve_each resolve_one_playlist_ref is_local_playlist_url playlist_api_prefix
    trim_suffix_slash has_prefix local_playlist_key trim_prefix get_playlist link_fetched
    playlist_id_from_body resolved_at insert_missing_playlists_batch unique_playlist_params holds
    insert_missing_rows item_rows record_playlist_sources update_document slug_taken update_rows
    next_updated_at members members_of_others resolve_document_id require_not_tombstoned insert_row
    insert_document parse_validated_playlist verify_owner_signatures
    verify_playlist_owner_signatures sign_and_validate_playlist
channel_replace_runs = refl

replace_channel-IsChannelReplaced_example :
    IsChannelReplaced libraries dp1 settings call web "77" channel_request
      (some channel_intent)
      channel_stored
      (λ n. channel_stored)
      channel_stored
      channel_out
      channel_renewed
      (renewed ∷ [])
replace_channel-IsChannelReplaced_example =
    replace_channel-IsChannelReplaced libraries dp1 settings call web "77" channel_request
      (some channel_intent) channel_stored (λ n. channel_stored) channel_stored channel_out
      channel_renewed (renewed ∷ []) count_sevens-sevens channel_replace_runs
