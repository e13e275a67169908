-- ===== src/Auth/Identity.antt =====
-- `signedIdentity` and its checks; the clock is an argument.
use dp1_feed_v.Shared.{
  String, Option, none, some, List, [], ◌∷◌, ◌==◌, nat_eq, ltb, if◌then◌else◌, ok, err, require,
  ◌>>=◌, ◌>>◌, trim_space,
}
use dp1_feed_v.Errors.{
  Error, Result, invalid_id, invalid_timestamp, missing_raw_body, slug_required, item_id_required,
  signatures_required, signed_document_mismatch,
}
use dp1_feed_v.Models.{Bytes, UuidValue, Time, Signature, PlaylistItem}
use dp1_feed_v.Platform.{Platform}

pub record SignedIdentity : Type 0 where
  pub id : UuidValue
  pub slug : String
  pub created : Time

abbrev pub or_error {ℓ} : {A : Type ℓ} → Error → Option A → Result A
or_error e none = err e
or_error e (some a) = ok a

module _ (p : Platform) where
  -- executor.go, `parseUserProvidedID`
  unfoldable pub parse_user_provided_id : Option String → Result UuidValue
  parse_user_provided_id none = err (invalid_id ∷ [])
  parse_user_provided_id (some s) =
      if s == "" then err (invalid_id ∷ []) else or_error (invalid_id ∷ []) (p.parse_uuid s)

  -- executor.go, `parseUserProvidedCreated`
  unfoldable pub parse_user_provided_created : Time → Option String → Result Time
  parse_user_provided_created now none = err (invalid_timestamp ∷ [])
  parse_user_provided_created now (some s) = if s == "" then err (invalid_timestamp ∷ []) else do
    t ← or_error (invalid_timestamp ∷ []) (p.parse_rfc3339 s)
    if ltb now t then err (invalid_timestamp ∷ []) else ok t

  -- executor.go, `parseDocumentCreated`
  unfoldable pub parse_document_created : String → Result Time
  parse_document_created s = or_error [] (p.parse_rfc3339_nano s)

  unfoldable pub require_item_ids : List PlaylistItem → Result (Unit {0})
  require_item_ids [] = ok tt
  require_item_ids (item ∷ items) =
      let rest = require_item_ids items in
      elim (p.parse_uuid (trim_space item.id)) [
        | none ↦ err (item_id_required ∷ [])
        | some id ↦ rest
      ]

unfoldable pub require_slug : String → Result String
require_slug slug = if trim_space slug == "" then err (slug_required ∷ []) else ok slug

unfoldable pub require_signatures : List Signature → Result (Unit {0})
require_signatures [] = err (signatures_required ∷ [])
require_signatures (s ∷ sigs) = ok tt

abbrev pub require_raw : Bytes → Result (Unit {0})
require_raw [] = err (missing_raw_body ∷ [])
require_raw (b ∷ raw) = ok tt

module _ (p : Platform) where
  unfoldable pub new_signed_identity :
      Time → Option String → Option String → String → Bytes → Result SignedIdentity
  new_signed_identity now id_str created_str slug raw = do
    require_raw raw
    id ← parse_user_provided_id p id_str
    created ← parse_user_provided_created p now created_str
    verbatim ← require_slug slug
    ok (record { id = id; slug = verbatim; created = created })

  unfoldable pub must_match_stored :
      SignedIdentity → UuidValue → String → String → Result (Unit {0})
  must_match_stored si row_id row_slug stored_created = do
    require (nat_eq si.id row_id) (signed_document_mismatch ∷ [])
    require (si.slug == row_slug) (signed_document_mismatch ∷ [])
    stored ← parse_document_created p stored_created
    require (nat_eq si.created stored) (signed_document_mismatch ∷ [])
