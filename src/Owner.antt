-- ===== src/Owner.antt =====
-- internal/executor/ownership.go: sets of signing keys, the owner set that a document defines, and the
-- rules under which it may change.
mod Keys
mod Rules
pub mod Sets
pub mod Laws
pub mod Groups
unfoldable pub use Keys.{
  KeySet, has, add_key, entity_key_set, publisher_key_set, role_signers, owner_set, client_signers,
  client_signer_key_set,
}
unfoldable pub use Rules.{
  legacy_group_owner, require_group_curator_consistent, stored_group_owner_set,
  require_unambiguous_owner, require_owner_signature, require_declaration_retained,
  require_owners_retained, require_regime_transition_consent, require_new_owner_consent,
  missing_from, signed_by_owner, unsigned_owners,
}
