-- ===== src/Errors.antt =====
-- The sentinel and typed errors of internal/store, internal/executor, internal/fetcher and dp1-go, error
-- chains, and the classification predicates of internal/executor. An error is the list of the sentinels
-- that its `%w` chain wraps; an error made by `fmt.Errorf` with no `%w` is the empty list. Message texts
-- are not modelled.
use dp1_feed_v.Shared.{ℕ, Bool, ◌||◌, List, [], ◌∷◌, any, nat_eq, Outcome}

pub data Sentinel : Type 0 where
  -- internal/store
  not_found concurrent_modification document_deleted already_exists : Sentinel
  -- a `*store.ConflictError` in the chain
  conflict_error : Sentinel
  list_limit_exceeded invalid_cursor invalid_list_filter : Sentinel
  -- internal/executor
  not_resource_owner owner_removed owner_consent_required : Sentinel
  ambiguous_owner group_curator_mismatch : Sentinel
  signatures_required intent_invalid slug_required item_id_required : Sentinel
  signed_document_mismatch too_many_references resolved_too_large : Sentinel
  playlist_uri_too_long no_playlist_references missing_raw_body : Sentinel
  extensions_disabled invalid_timestamp invalid_id : Sentinel
  signature_verification_failed : Sentinel
  no_valid_curator_signature no_valid_publisher_signature : Sentinel
  -- internal/fetcher: the sentinel, and the two error types
  blocked_destination oversized_error : Sentinel
  status_error : ℕ → Sentinel
  -- dp1-go
  sig_invalid unsupported_alg no_signatures dp1_validation : Sentinel

abbrev tag : Sentinel → ℕ
tag not_found = 0
tag concurrent_modification = 1
tag document_deleted = 2
tag already_exists = 3
tag conflict_error = 4
tag list_limit_exceeded = 5
tag invalid_cursor = 6
tag invalid_list_filter = 7
tag not_resource_owner = 8
tag owner_removed = 9
tag owner_consent_required = 10
tag ambiguous_owner = 11
tag group_curator_mismatch = 12
tag signatures_required = 13
tag intent_invalid = 14
tag slug_required = 15
tag item_id_required = 16
tag signed_document_mismatch = 17
tag too_many_references = 18
tag resolved_too_large = 19
tag playlist_uri_too_long = 20
tag no_playlist_references = 21
tag missing_raw_body = 22
tag extensions_disabled = 23
tag invalid_timestamp = 24
tag invalid_id = 25
tag signature_verification_failed = 26
tag no_valid_curator_signature = 27
tag no_valid_publisher_signature = 28
tag blocked_destination = 29
tag oversized_error = 30
tag (status_error n) = 31
tag sig_invalid = 32
tag unsupported_alg = 33
tag no_signatures = 34
tag dp1_validation = 35

abbrev pub Error : Type 0
Error = List Sentinel

abbrev pub Result {ℓ} : Type ℓ → Type ℓ
Result A = Outcome Error A

-- `errors.Is(err, s)`, and `errors.As` for the two error types.
unfoldable pub wraps : Error → Sentinel → Bool
wraps e s = any (λ t. nat_eq (tag t) (tag s)) e

-- `IsForbiddenError`
unfoldable pub is_forbidden : Error → Bool
unfolding wraps
is_forbidden e =
    wraps e not_resource_owner || wraps e owner_removed || wraps e owner_consent_required

-- `IsInvalidSubmissionError`
unfoldable pub is_invalid_submission : Error → Bool
unfolding wraps
is_invalid_submission e =
    wraps e ambiguous_owner
    || wraps e group_curator_mismatch
    || wraps e slug_required
    || wraps e item_id_required
    || wraps e too_many_references
    || wraps e resolved_too_large
    || wraps e playlist_uri_too_long
    || wraps e no_playlist_references
    || wraps e signed_document_mismatch

-- `IsDP1SignError`
unfoldable pub is_dp1_sign : Error → Bool
unfolding wraps
is_dp1_sign e = wraps e sig_invalid || wraps e unsupported_alg || wraps e no_signatures

-- `IsSignatureVerificationError`
unfoldable pub is_signature_verification : Error → Bool
unfolding wraps
is_signature_verification e =
    wraps e signature_verification_failed
    || wraps e no_valid_curator_signature
    || wraps e no_valid_publisher_signature

-- What a call of dp1-go, of the JSON codec or of the database can fail with: none of the sentinels that
-- this program defines.
pub data LibraryError : Type 0 where
  bad_signature bad_algorithm missing_signatures failed_validation other_failure : LibraryError

abbrev pub library_error : LibraryError → Error
library_error bad_signature = sig_invalid ∷ []
library_error bad_algorithm = unsupported_alg ∷ []
library_error missing_signatures = no_signatures ∷ []
library_error failed_validation = dp1_validation ∷ []
library_error other_failure = []
