-- ===== src/Auth.antt =====
-- internal/executor/signed_auth.go: the identity that a signed submission asserts, and the signed intent
-- that authorizes a mutation. The executor's parsers of `id` and `created` are in executor.go.
mod Identity
mod Intent
pub mod Laws
pub use Identity.{SignedIdentity, or_error}
unfoldable pub use Identity.{
  parse_user_provided_id, parse_user_provided_created, parse_document_created, require_slug,
  require_item_ids, require_signatures, new_signed_identity, must_match_stored,
}
unfoldable pub use Intent.{
  default_intent_skew, intent_declares_payload_hash, require_intent_binds_document,
  require_fresh_intent_timestamp, accept_verified, verify_intent,
}
