-- ===== src/Http/Mapping.antt =====
-- errors.go: an error chain as the status and the stable code of the answer. Message texts are left out.
use dp1_feed_v.Shared.{ℕ, String, ◌||◌, if◌then◌else◌}
use dp1_feed_v.Errors.{
  Error, wraps, is_forbidden, is_invalid_submission, is_dp1_sign, is_signature_verification,
  not_found, concurrent_modification, document_deleted, conflict_error, list_limit_exceeded,
  invalid_cursor, invalid_list_filter, extensions_disabled, signatures_required, intent_invalid,
  blocked_destination, dp1_validation, invalid_timestamp, invalid_id,
}

pub record HttpError : Type 0 where
  pub status : ℕ
  pub code : String

unfoldable pub map_store_error : Error → HttpError
unfolding wraps
map_store_error e =
    if wraps e not_found
    then record { status = 404; code = "not_found" }
    else if wraps e concurrent_modification
    then record { status = 409; code = "conflict" }
    else if wraps e document_deleted
    then record { status = 409; code = "conflict" }
    else if wraps e conflict_error
    then record { status = 409; code = "conflict" }
    else if wraps e list_limit_exceeded || wraps e invalid_cursor || wraps e invalid_list_filter
    then record { status = 400; code = "bad_request" }
    else record { status = 500; code = "internal_error" }

unfoldable pub map_executor_error : Error → HttpError
map_executor_error e =
    if wraps e extensions_disabled
    then record { status = 404; code = "extensions_disabled" }
    else if wraps e signatures_required
    then record { status = 401; code = "unauthorized" }
    else if is_forbidden e
    then record { status = 403; code = "forbidden" }
    else if wraps e intent_invalid
    then record { status = 400; code = "bad_request" }
    else if is_invalid_submission e
    then record { status = 400; code = "bad_request" }
    else if wraps e blocked_destination
    then record { status = 400; code = "bad_request" }
    else if is_dp1_sign e
    then record { status = 400; code = "signature_invalid" }
    else if wraps e dp1_validation
    then record { status = 400; code = "validation_error" }
    else if is_signature_verification e
    then record { status = 400; code = "signature_verification_failed" }
    else if wraps e invalid_timestamp
    then record { status = 400; code = "invalid_timestamp" }
    else if wraps e invalid_id
    then record { status = 400; code = "invalid_id" }
    else map_store_error e
