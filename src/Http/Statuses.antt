-- ===== src/Http/Statuses.antt =====
-- Which refusals reach the client under which status.
use dp1_feed_v.Shared.{◌≡◌, ◌↔◌, false, List, [], ◌∷◌, any, arith}
use dp1_feed_v.Errors.{
  Error, Sentinel, wraps, is_forbidden, is_invalid_submission, is_dp1_sign,
  is_signature_verification, not_found, concurrent_modification, document_deleted, conflict_error,
  list_limit_exceeded, invalid_cursor, invalid_list_filter, extensions_disabled,
  signatures_required, intent_invalid, blocked_destination, dp1_validation, invalid_timestamp,
  invalid_id, not_resource_owner, owner_removed, owner_consent_required, ambiguous_owner,
  group_curator_mismatch, slug_required, item_id_required, too_many_references, resolved_too_large,
  playlist_uri_too_long, no_playlist_references, signed_document_mismatch, sig_invalid,
  unsupported_alg, no_signatures, signature_verification_failed, no_valid_curator_signature,
  no_valid_publisher_signature,
}
use dp1_feed_v.Http.Mapping.{map_store_error, map_executor_error}

-- The sentinels that have a status of their own.
abbrev pub answered : List Sentinel
answered =
    extensions_disabled ∷ signatures_required ∷ not_resource_owner ∷ owner_removed
    ∷ owner_consent_required ∷ intent_invalid ∷ ambiguous_owner ∷ group_curator_mismatch
    ∷ slug_required ∷ item_id_required ∷ too_many_references ∷ resolved_too_large
    ∷ playlist_uri_too_long ∷ no_playlist_references ∷ signed_document_mismatch
    ∷ blocked_destination ∷ sig_invalid ∷ unsupported_alg ∷ no_signatures ∷ dp1_validation
    ∷ signature_verification_failed ∷ no_valid_curator_signature ∷ no_valid_publisher_signature
    ∷ invalid_timestamp ∷ invalid_id ∷ not_found ∷ concurrent_modification ∷ document_deleted
    ∷ conflict_error ∷ list_limit_exceeded ∷ invalid_cursor ∷ invalid_list_filter ∷ []

-- An error is answered with 500 exactly when its chain wraps none of the sentinels that have a status.
pub map_executor_error_internal_iff :
    (e : Error) → ((map_executor_error e).status ≡ 500) ↔ (any (wraps e) answered ≡ false)
unfolding map_executor_error map_store_error is_forbidden is_invalid_submission is_dp1_sign
    is_signature_verification
map_executor_error_internal_iff e = ground arith
