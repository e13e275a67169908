-- ===== src/Tests/Mutations.antt =====
-- A replace and a delete of the stored playlist, run to their end.
use dp1_feed_v.Shared.{
  ℕ, String, ◌≡◌, refl, true, none, some, [], ◌∷◌, ok, err, trim_space, equal_fold,
}
use dp1_feed_v.Errors.{document_deleted}
use dp1_feed_v.Models.{Bytes, Time, Row}
use dp1_feed_v.Owner.{
  add_key, entity_key_set, has, missing_from, owner_set, require_declaration_retained,
  require_new_owner_consent, require_owner_signature, require_owners_retained,
  require_regime_transition_consent, require_unambiguous_owner, role_signers, signed_by_owner,
  unsigned_owners,
}
use dp1_feed_v.Auth.{
  accept_verified, intent_declares_payload_hash, must_match_stored, new_signed_identity,
  parse_document_created, parse_user_provided_created, parse_user_provided_id,
  require_fresh_intent_timestamp, require_intent_binds_document, require_item_ids,
  require_signatures, require_slug, verify_intent,
}
use dp1_feed_v.Store
use dp1_feed_v.Store.{
  Db, channels_listing, find_id, find_slug, get_playlist, holds, item_rows, items_elsewhere,
  members_elsewhere, next_updated_at, remove_id, insert_document, delete_document,
  resolve_document_id, slug_taken, sources_elsewhere, update_document, update_rows,
}
use dp1_feed_v.Store.Rows.{IsRetired}
use dp1_feed_v.Store.History.{delete_playlist_final, now, after, created}
use dp1_feed_v.Exec.{
  Event, EventType, SignedPlaylist, Authorized, authorize_replace, authorize_delete, check_replace,
  notify_listing_channels, parse_validated_playlist, replace_playlist, delete_playlist,
  run_channel_mutation, run_playlist_mutation, sign_and_validate_playlist,
}
use dp1_feed_v.Exec.Commits.{
  IsReplaced, IsDeleted, replace_playlist-IsReplaced, delete_playlist-IsDeleted,
}
use dp1_feed_v.Tests.World.{
  libraries, dp1, settings, call, request, replace_intent, delete_intent, one_playlist,
  stored_record, new_playlist, stored_row, count_sevens, sevens, count_sevens-sevens,
}

abbrev pub replaced_row : Row
replaced_row = record stored_row { raw = 5 ∷ 2 ∷ []; updated_at = 1000 }

abbrev pub replaced : Db
replaced = record one_playlist {
  playlists = record { rows = replaced_row ∷ []; deleted = [] };
  items = record { item_id = 1; playlist_id = 2; playlist_created_at = 100; position = 0 } ∷ [];
}

abbrev pub answer : SignedPlaylist
answer = record { id = 2; slug = "mornings"; raw = 5 ∷ 2 ∷ []; body = new_playlist }

abbrev pub updated_event : Event
updated_event = record { type = EventType.channel_updated; channel = 9 }

-- The replace adds bob as an owner, whom alice's intent and his own signature let in.
pub replace_runs :
    replace_playlist libraries dp1 settings call "77" request
      (some replace_intent)
      one_playlist
      one_playlist
    ≡ ok (answer, replaced, updated_event ∷ [])
unfolding replace_playlist authorize_replace check_replace require_signatures require_item_ids
    trim_space Store.get_playlist find_id new_signed_identity parse_user_provided_id
    parse_user_provided_created require_slug must_match_stored parse_document_created
    require_declaration_retained entity_key_set add_key has require_unambiguous_owner
    require_owners_retained accept_verified intent_declares_payload_hash
    require_fresh_intent_timestamp require_intent_binds_document verify_intent
    notify_listing_channels run_channel_mutation run_playlist_mutation parse_validated_playlist
    sign_and_validate_playlist owner_set role_signers missing_from require_new_owner_consent
    require_owner_signature require_regime_transition_consent signed_by_owner unsigned_owners
    equal_fold channels_listing items_elsewhere resolve_document_id Store.update_playlist
    next_updated_at slug_taken update_document update_rows item_rows holds sevens count_sevens
replace_runs = refl

replace_playlist-IsReplaced_example :
    IsReplaced libraries dp1 settings call "77" request
      (some replace_intent)
      one_playlist
      one_playlist
      answer
      replaced
replace_playlist-IsReplaced_example =
    replace_playlist-IsReplaced libraries dp1 settings call "77" request (some replace_intent)
      one_playlist one_playlist answer replaced (updated_event ∷ []) count_sevens-sevens
      replace_runs

abbrev authorized : Authorized
authorized = record {
  target = stored_record;
  stored = "did:alice" ∷ [];
  incoming = "did:bob" ∷ "did:alice" ∷ [];
  signed = 5 ∷ 2 ∷ [];
  body = new_playlist;
}

authorize_replace_runs :
    authorize_replace libraries dp1 settings call "77" request (some replace_intent) one_playlist
    ≡ ok authorized
unfolding authorize_replace check_replace require_signatures require_item_ids trim_space
    Store.get_playlist find_id new_signed_identity parse_user_provided_id
    parse_user_provided_created require_slug must_match_stored parse_document_created
    require_declaration_retained entity_key_set add_key has require_unambiguous_owner
    require_owners_retained accept_verified intent_declares_payload_hash
    require_fresh_intent_timestamp require_intent_binds_document verify_intent
    parse_validated_playlist sign_and_validate_playlist owner_set role_signers missing_from
    require_new_owner_consent require_owner_signature require_regime_transition_consent
    signed_by_owner unsigned_owners equal_fold sevens count_sevens
authorize_replace_runs = refl

-- The delete takes the playlist out of the channel that lists it, and tells that channel.
abbrev deleted : Db
deleted = record one_playlist {
  playlists = record { rows = []; deleted = 2 ∷ [] };
  channel_members = [];
}

delete_runs :
    delete_playlist libraries dp1 settings call "77" (some delete_intent) one_playlist one_playlist
    ≡ ok (deleted, updated_event ∷ [])
unfolding delete_playlist authorize_delete Store.get_playlist find_id verify_intent owner_set
    entity_key_set add_key has trim_space intent_declares_payload_hash require_intent_binds_document
    require_fresh_intent_timestamp require_signatures accept_verified require_owner_signature
    signed_by_owner run_playlist_mutation run_channel_mutation Store.delete_playlist
    resolve_document_id delete_document remove_id holds items_elsewhere members_elsewhere
    sources_elsewhere channels_listing notify_listing_channels sevens count_sevens
delete_runs = refl

delete_playlist-IsDeleted_example :
    IsDeleted libraries dp1 settings call "77"
      (some delete_intent)
      one_playlist
      one_playlist
      deleted
delete_playlist-IsDeleted_example =
    delete_playlist-IsDeleted libraries dp1 settings call "77" (some delete_intent) one_playlist
      one_playlist deleted (updated_event ∷ []) count_sevens-sevens delete_runs

write_runs :
    Store.update_playlist libraries 1000 "77" (5 ∷ 2 ∷ []) 100 true true one_playlist
    ≡ ok (replaced, 9 ∷ [])
unfolding Store.update_playlist resolve_document_id find_id update_document slug_taken update_rows
    next_updated_at item_rows holds items_elsewhere channels_listing count_sevens
write_runs = refl

named_by_id : libraries.parse_uuid "77" ≡ some 2
unfolding count_sevens
named_by_id = refl

store_delete_runs :
    Store.delete_playlist libraries "77" 100 true true one_playlist ≡ ok (deleted, 9 ∷ [])
unfolding Store.delete_playlist resolve_document_id find_id delete_document remove_id holds
    items_elsewhere members_elsewhere sources_elsewhere channels_listing count_sevens
store_delete_runs = refl

found_by_id : Store.resolve_document_id libraries "77" (stored_row ∷ []) ≡ ok 2
unfolding resolve_document_id count_sevens
found_by_id = refl

one_playlist-IsRetired : IsRetired one_playlist.playlists
unfolding holds
one_playlist-IsRetired = record { gone = λ id h. cc }

abbrev with_other : Db
with_other = record deleted {
  playlists = record {
    rows =
        record { id = 3; slug = "evenings"; raw = 2 ∷ []; created_at = 1200; updated_at = 1200 }
        ∷ [];
    deleted = 2 ∷ [];
  };
  items = record { item_id = 1; playlist_id = 3; playlist_created_at = 1200; position = 0 } ∷ [];
}

other_created : Store.create_playlist libraries 1200 3 "evenings" (2 ∷ []) deleted ≡ ok with_other
unfolding Store.create_playlist insert_document holds find_id find_slug item_rows count_sevens
other_created = refl

delete_playlist_final_example :
    (find_id 2 with_other.playlists.rows ≡ none)
    × ((n : Time) (slug : String) (b : ℕ) (raw : Bytes)
        → Store.create_playlist libraries n 2 slug (b ∷ raw) with_other
          ≡ err (document_deleted ∷ []))
delete_playlist_final_example =
    delete_playlist_final libraries one_playlist deleted with_other "77" 2 100 true true (9 ∷ [])
      one_playlist-IsRetired found_by_id store_delete_runs
      (after now (created 1200 3 "evenings" (2 ∷ []) other_created))
