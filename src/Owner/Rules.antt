-- ===== src/Owner/Rules.antt =====
-- The rules on owner sets, in the order of ownership.go.
use dp1_feed_v.Shared.{
  String, Bool, true, false, not, Option, none, some, List, [], ◌∷◌, length, ◌==◌, leb,
  if◌then◌else◌, ok, err, trim_space,
}
use dp1_feed_v.Errors.{
  Error, Result, group_curator_mismatch, not_resource_owner, ambiguous_owner, owner_removed,
  owner_consent_required,
}
use dp1_feed_v.Models.{Signature, Group, role_curator}
use dp1_feed_v.Owner.Keys.{KeySet, has, owner_set, client_signer_key_set}

-- `none` where the source returns the empty string.
unfoldable pub legacy_group_owner : Group → Option String
legacy_group_owner g =
    let legacy = trim_space g.curator in
    if legacy == ""
    then none
    else if has (client_signer_key_set g.signatures) legacy
    then some legacy
    else none

unfoldable pub require_group_curator_consistent : String → List Signature → Result (Unit {0})
require_group_curator_consistent curator sigs =
    let c = trim_space curator in
    if c == ""
    then ok tt
    else if not (has (client_signer_key_set sigs) c)
    then ok tt
    else if has (owner_set [] role_curator sigs) c
    then ok tt
    else err (group_curator_mismatch ∷ [])

abbrev pub sole_signer : KeySet → Result KeySet
sole_signer signers = if leb (length signers) 1 then ok signers else err (not_resource_owner ∷ [])

unfoldable pub stored_group_owner_set : Group → Result KeySet
stored_group_owner_set g = elim (legacy_group_owner g) [
  | some legacy ↦ ok (legacy ∷ [])
  | none ↦ sole_signer (owner_set [] role_curator g.signatures)
]

unfoldable pub require_unambiguous_owner : KeySet → String → List Signature → Result (Unit {0})
require_unambiguous_owner (k ∷ declared) role sigs = ok tt
require_unambiguous_owner [] role sigs =
    if leb (length (owner_set [] role sigs)) 1 then ok tt else err (ambiguous_owner ∷ [])

-- The loop of `requireOwnerSignature`. The list of owners that signed in another role goes only into
-- the message, so both ways out of the loop are the caller's `missing`.
unfoldable pub signed_by_owner : KeySet → String → List Signature → Bool
signed_by_owner owners role [] = false
signed_by_owner owners role (s ∷ sigs) =
    let rest = signed_by_owner owners role sigs in
    if not (has owners (trim_space s.kid)) then rest else if s.role == role then true else rest

unfoldable pub require_owner_signature :
    KeySet → String → List Signature → Error → Result (Unit {0})
require_owner_signature [] role sigs missing = err missing
require_owner_signature (k ∷ owners) role sigs missing =
    if signed_by_owner (k ∷ owners) role sigs then ok tt else err missing

unfoldable pub require_declaration_retained : KeySet → KeySet → Result (Unit {0})
require_declaration_retained (k ∷ stored_declared) [] = err (owner_removed ∷ [])
require_declaration_retained [] incoming_declared = ok tt
require_declaration_retained (k ∷ stored_declared) (j ∷ incoming_declared) = ok tt

-- The keys of a set that another one lacks.
unfoldable pub missing_from : KeySet → KeySet → KeySet
missing_from other [] = []
missing_from other (k ∷ set) =
    let rest = missing_from other set in if has other k then rest else k ∷ rest

-- `if len(missing) == 0 { return nil }`
abbrev pub require_none : Error → KeySet → Result (Unit {0})
require_none e [] = ok tt
require_none e (k ∷ keys) = err e

unfoldable pub require_owners_retained : KeySet → KeySet → Result (Unit {0})
require_owners_retained stored incoming =
    require_none (owner_removed ∷ []) (missing_from incoming stored)

abbrev pub transition : KeySet → KeySet → Bool
transition [] (k ∷ incoming_declared) = true
transition [] [] = false
transition (k ∷ stored_declared) incoming_declared = false

unfoldable pub require_regime_transition_consent :
    KeySet → KeySet → KeySet → String → List Signature → Result (Unit {0})
require_regime_transition_consent stored_declared incoming_declared stored_owners role sigs =
    if transition stored_declared incoming_declared
    then require_none (owner_consent_required ∷ [])
        (missing_from (owner_set [] role sigs) stored_owners)
    else ok tt

-- A key that was an owner, or that signed in the role, is passed over.
unfoldable pub unsigned_owners : KeySet → KeySet → KeySet → KeySet
unsigned_owners stored signed [] = []
unsigned_owners stored signed (k ∷ incoming) =
    let rest = unsigned_owners stored signed incoming in
    if has stored k then rest else if has signed k then rest else k ∷ rest

unfoldable pub require_new_owner_consent :
    KeySet → KeySet → String → List Signature → Result (Unit {0})
require_new_owner_consent stored incoming role sigs =
    require_none (owner_consent_required ∷ [])
      (unsigned_owners stored (owner_set [] role sigs) incoming)
