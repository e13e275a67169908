-- ===== src/Tests/Creations.antt =====
-- Creates of a playlist, a group and a channel, run to their end.
use dp1_feed_v.Shared.{
  String, ◌≡◌, refl, true, none, some, List, [], ◌∷◌, ok, trim_space, equal_fold, byte_length,
  trim_suffix_slash, has_prefix, trim_prefix,
}
use dp1_feed_v.Models.{Row, Signature, GroupRequest, ChannelRequest, role_curator, role_publisher}
use dp1_feed_v.Owner.{
  add_key, entity_key_set, publisher_key_set, has, missing_from, owner_set,
  require_declaration_retained, require_new_owner_consent, require_owner_signature,
  require_owners_retained, require_regime_transition_consent, require_unambiguous_owner,
  role_signers, signed_by_owner, unsigned_owners, client_signer_key_set, client_signers,
  legacy_group_owner, stored_group_owner_set, require_group_curator_consistent,
}
use dp1_feed_v.Auth.{
  SignedIdentity, accept_verified, intent_declares_payload_hash, must_match_stored,
  new_signed_identity, parse_document_created, parse_user_provided_created, parse_user_provided_id,
  require_fresh_intent_timestamp, require_intent_binds_document, require_item_ids,
  require_signatures, require_slug, verify_intent,
}
use dp1_feed_v.Store
use dp1_feed_v.Store.{
  Db, find_id, find_slug, find_document, get_playlist, get_playlist_group, get_channel, holds,
  item_rows, next_updated_at, insert_row, insert_document, require_not_tombstoned,
  resolve_document_id, slug_taken, update_document, update_rows, insert_missing_playlists_batch,
  unique_playlist_params, insert_missing_rows, record_playlist_sources, members, members_of_others,
}
use dp1_feed_v.Store.Creations.{IsCreated}
use dp1_feed_v.Exec.{
  Fetcher, Event, EventType, SignedPlaylist, SignedGroup, SignedChannel, create_playlist,
  create_playlist_group, create_channel, authorize_group_create, authorize_channel_create,
  sign_and_validate_playlist, sign_and_validate_playlist_group, sign_and_validate_channel,
  parse_validated_playlist, verify_owner_signatures, verify_playlist_owner_signatures,
  run_channel_mutation, notify_channel, distinct_keys, is_local_playlist_url, link_fetched,
  local_playlist_key, playlist_api_prefix, playlist_id_from_body, require_uri_lengths, resolve_each,
  resolve_one_playlist_ref, resolve_playlist_uris, resolved_at,
}
use dp1_feed_v.Exec.Creations.{
  IsOwned, create_playlist-IsOwned, create_playlist_group-IsOwned, create_channel-IsOwned,
}
use dp1_feed_v.Tests.World.{
  alice, alice_key, alice_group, alice_channel, libraries, dp1, settings, call, request,
  one_playlist, new_playlist, count_sevens, sevens,
}

abbrev pub web : Fetcher
web = none

abbrev pub morning : List String
morning = "https://feed.example/api/v1/playlists/77" ∷ []

abbrev nothing : Db
nothing = record one_playlist {
  playlists = record { rows = []; deleted = [] };
  channel_members = [];
}

abbrev created_row : Row
created_row = record {
  id = 2;
  slug = "mornings";
  raw = 5 ∷ 2 ∷ [];
  created_at = 1000;
  updated_at = 1000;
}

abbrev playlist_made : Db
playlist_made = record nothing {
  playlists = record { rows = created_row ∷ []; deleted = [] };
  items = record { item_id = 1; playlist_id = 2; playlist_created_at = 1000; position = 0 } ∷ [];
}

abbrev playlist_out : SignedPlaylist
playlist_out = record { id = 2; slug = "mornings"; raw = 5 ∷ 2 ∷ []; body = new_playlist }

playlist_create_runs :
    create_playlist libraries dp1 settings call request nothing ≡ ok (playlist_out, playlist_made)
unfolding create_playlist Store.create_playlist require_signatures require_item_ids trim_space
    find_id find_slug find_document new_signed_identity parse_user_provided_id
    parse_user_provided_created require_slug publisher_key_set entity_key_set add_key has
    require_unambiguous_owner require_owners_retained accept_verified intent_declares_payload_hash
    require_fresh_intent_timestamp require_intent_binds_document verify_intent owner_set
    require_owner_signature require_regime_transition_consent signed_by_owner count_sevens
    client_signer_key_set client_signers holds insert_missing_rows item_rows insert_row
    insert_document parse_validated_playlist verify_owner_signatures
    verify_playlist_owner_signatures sign_and_validate_playlist
playlist_create_runs = refl

create_playlist-IsOwned_example :
    IsOwned dp1.verify_playlist_signatures request.raw
      (entity_key_set request.curators)
      role_curator
      request.signatures
    × ((si : SignedIdentity) × (new_signed_identity libraries call.now_identity request.id
            request.created request.slug request.raw
          ≡ ok si)
        × (sign_and_validate_playlist dp1 settings request.raw si.created
            ≡ ok (playlist_out.raw, playlist_out.body))
        × IsCreated si.id si.slug
            (libraries.jsonb_text playlist_out.raw)
            nothing.playlists
            playlist_made.playlists)
create_playlist-IsOwned_example =
    create_playlist-IsOwned libraries dp1 settings call request nothing playlist_made playlist_out
      playlist_create_runs

abbrev pub group_request : GroupRequest
group_request = record {
  id = some "77";
  created = some "t0";
  slug = "mornings";
  playlists = morning;
  curator = "Alice & co";
  signatures = alice ∷ [];
  raw = 2 ∷ [];
}

abbrev pub group_out : SignedGroup
group_out = record { id = 2; slug = "mornings"; raw = 5 ∷ 2 ∷ []; body = alice_group }

abbrev group_made : Db
group_made = record one_playlist {
  groups = record { rows = created_row ∷ []; deleted = [] };
  group_members = record { container = 2; playlist_id = 2; position = 0 } ∷ [];
}

group_create_runs :
    create_playlist_group libraries dp1 settings call web group_request
      (λ n. one_playlist)
      one_playlist
    ≡ ok (group_out, group_made)
unfolding create_playlist_group authorize_group_create sign_and_validate_playlist_group
    Store.create_playlist_group require_signatures require_item_ids trim_space find_id find_slug
    find_document new_signed_identity parse_user_provided_id parse_user_provided_created
    require_slug must_match_stored entity_key_set add_key has require_unambiguous_owner
    require_owners_retained accept_verified verify_intent owner_set role_signers missing_from
    require_new_owner_consent require_owner_signature require_regime_transition_consent
    signed_by_owner unsigned_owners equal_fold sevens count_sevens client_signer_key_set
    client_signers legacy_group_owner stored_group_owner_set require_group_curator_consistent
    resolve_playlist_uris require_uri_lengths byte_length distinct_keys resolve_each
    resolve_one_playlist_ref is_local_playlist_url playlist_api_prefix trim_suffix_slash has_prefix
    local_playlist_key trim_prefix get_playlist link_fetched playlist_id_from_body resolved_at
    insert_missing_playlists_batch unique_playlist_params holds insert_missing_rows item_rows
    record_playlist_sources next_updated_at members members_of_others insert_document
    parse_validated_playlist verify_owner_signatures
group_create_runs = refl

create_playlist_group-IsOwned_example :
    (require_group_curator_consistent group_request.curator group_request.signatures ≡ ok tt)
    × IsOwned dp1.verify_playlist_group_signatures group_request.raw [] role_curator
        group_request.signatures
    × ((si : SignedIdentity) × (new_signed_identity libraries call.now_identity group_request.id
            group_request.created group_request.slug group_request.raw
          ≡ ok si)
        × (sign_and_validate_playlist_group dp1 group_request.raw si.created
            ≡ ok (group_out.raw, group_out.body))
        × IsCreated si.id si.slug
            (libraries.jsonb_text group_out.raw)
            one_playlist.groups
            group_made.groups)
create_playlist_group-IsOwned_example =
    create_playlist_group-IsOwned libraries dp1 settings call web group_request (λ n. one_playlist)
      one_playlist group_made group_out group_create_runs

abbrev pub publisher : Signature
publisher = record alice { role = role_publisher }

abbrev pub channel_request : ChannelRequest
channel_request = record {
  id = some "77";
  created = some "t0";
  slug = "mornings";
  playlists = morning;
  publisher = some alice_key;
  signatures = publisher ∷ [];
  raw = 2 ∷ [];
}

abbrev pub channel_out : SignedChannel
channel_out = record { id = 2; slug = "mornings"; raw = 5 ∷ 2 ∷ []; body = alice_channel }

abbrev channel_made : Db
channel_made = record one_playlist {
  channels = record { rows = created_row ∷ []; deleted = [] };
  channel_members =
      record { container = 2; playlist_id = 2; position = 0 }
      ∷ record { container = 9; playlist_id = 2; position = 0 }
      ∷ [];
}

abbrev welcome : Event
welcome = record { type = EventType.channel_added; channel = 2 }

channel_create_runs :
    create_channel libraries dp1 settings call web channel_request (λ n. one_playlist) one_playlist
    ≡ ok (channel_out, channel_made, welcome ∷ [])
unfolding create_channel authorize_channel_create sign_and_validate_channel Store.create_channel
    run_channel_mutation notify_channel require_signatures require_item_ids trim_space find_id
    find_slug find_document new_signed_identity parse_user_provided_id parse_user_provided_created
    require_slug must_match_stored parse_document_created require_declaration_retained
    publisher_key_set entity_key_set add_key has require_unambiguous_owner require_owners_retained
    accept_verified intent_declares_payload_hash owner_set role_signers missing_from
    require_new_owner_consent require_owner_signature require_regime_transition_consent
    signed_by_owner unsigned_owners equal_fold sevens count_sevens client_signer_key_set
    require_group_curator_consistent resolve_playlist_uris require_uri_lengths byte_length
    distinct_keys resolve_each resolve_one_playlist_ref is_local_playlist_url playlist_api_prefix
    trim_suffix_slash has_prefix local_playlist_key trim_prefix get_playlist link_fetched
    playlist_id_from_body resolved_at insert_missing_playlists_batch unique_playlist_params holds
    insert_missing_rows item_rows record_playlist_sources update_document members members_of_others
    resolve_document_id require_not_tombstoned insert_row insert_document parse_validated_playlist
    verify_owner_signatures verify_playlist_owner_signatures
channel_create_runs = refl

create_channel-IsOwned_example :
    (settings.extensions_enabled ≡ true)
    × IsOwned dp1.verify_channel_signatures channel_request.raw
        (publisher_key_set channel_request.publisher)
        role_publisher
        channel_request.signatures
    × ((si : SignedIdentity) × (new_signed_identity libraries call.now_identity channel_request.id
            channel_request.created channel_request.slug channel_request.raw
          ≡ ok si)
        × (sign_and_validate_channel dp1 channel_request.raw si.created
            ≡ ok (channel_out.raw, channel_out.body))
        × IsCreated si.id si.slug
            (libraries.jsonb_text channel_out.raw)
            one_playlist.channels
            channel_made.channels)
create_channel-IsOwned_example =
    create_channel-IsOwned libraries dp1 settings call web channel_request (λ n. one_playlist)
      one_playlist channel_made channel_out (welcome ∷ []) channel_create_runs
