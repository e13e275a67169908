-- ===== src/Owner/Laws.antt =====
-- What each rule of Owner.Rules accepts, as a statement about the sets that it compares.
use dp1_feed_v.Shared.{
  String, ◌≡◌, ◌≢◌, refl, ◌↔◌, inl, inr, true, false, ◌&&◌, List, [], ◌∷◌, any, ◌==◌, eq_iff,
  Bool-cases, trim_space, arith, ok,
}
use dp1_feed_v.Errors.{Error}
use dp1_feed_v.Models.{Signature}
use dp1_feed_v.Owner.Keys.{KeySet, has, owner_set}
use dp1_feed_v.Owner.Sets.{Subset, signs_as, has-role_signers}
use dp1_feed_v.Owner.Rules.{
  signed_by_owner, require_owner_signature, missing_from, require_owners_retained,
  require_regime_transition_consent, unsigned_owners, require_new_owner_consent, require_none,
}

missing_from-nil : (other set : KeySet) → missing_from other set ≡ [] → Subset set other
unfolding missing_from has
missing_from-nil other [] e k h = cc
missing_from-nil other (j ∷ set) e k h = elim (Bool-cases (has other j)) [
  | inl held ↦ elim (Bool-cases (j == k)) [
    | inl same ↦ ground (arith, eq_iff j k)
    | inr other_key ↦ missing_from-nil other set (rw (held, missing_from) at e) k (ground arith)
  ]
  | inr lacks ↦ ground arith
]

Subset-missing_from : (other set : KeySet) → Subset set other → missing_from other set ≡ []
unfolding missing_from has
Subset-missing_from other [] s = refl
Subset-missing_from other (j ∷ set) s =
    ground (arith, s j, eq_iff j j, Subset-missing_from other set (λ k h. s k (ground arith)))

require_none-nil : (er : Error) (keys : KeySet) → require_none er keys ≡ ok tt → keys ≡ []
require_none-nil er [] e = refl
require_none-nil er (k ∷ keys) e = cc

-- Retention accepts exactly the incoming sets that hold every stored owner.
pub require_owners_retained_iff :
    (stored incoming : KeySet)
    → (require_owners_retained stored incoming ≡ ok tt) ↔ Subset stored incoming
unfolding require_owners_retained
require_owners_retained_iff stored incoming = (
  λ e. missing_from-nil incoming stored (require_none-nil _ _ e),
  λ s. rw (Subset-missing_from incoming stored s),
)

-- A key that signed in the role is among the role's signers, and the other way round.
pub has-owner_set_nil :
    (role : String) (sigs : List Signature) (k : String)
    → has (owner_set [] role sigs) k ≡ any (signs_as role k) sigs
unfolding owner_set
has-owner_set_nil role sigs k = unfold has in has-role_signers role [] sigs k

unsigned_owners-nil :
    (stored signed incoming : KeySet) (k : String)
    → unsigned_owners stored signed incoming ≡ []
    → has incoming k ≡ true
    → has stored k ≡ false
    → has signed k ≡ true
unfolding unsigned_owners has
unsigned_owners-nil stored signed [] k e h n = cc
unsigned_owners-nil stored signed (j ∷ incoming) k e h n = elim (Bool-cases (j == k)) [
  | inl same ↦ ground (arith, eq_iff j k)
  | inr other ↦ unsigned_owners-nil stored signed incoming k (ground arith) (ground arith) n
]

-- Every key that a replacement adds signed the replacement in the owner role.
pub require_new_owner_consent_lem :
    (stored incoming : KeySet) (role : String) (sigs : List Signature)
    → require_new_owner_consent stored incoming role sigs ≡ ok tt
    → (k : String) → has incoming k ≡ true
    → has stored k ≡ false
    → any (signs_as role k) sigs ≡ true
unfolding require_new_owner_consent
require_new_owner_consent_lem stored incoming role sigs e k h n =
    rw has-owner_set_nil at (unsigned_owners-nil stored _ incoming k (require_none-nil _ _ e) h n)

-- A first declaration of owners carries every stored owner's signature in the owner role.
pub require_regime_transition_consent_lem :
    (incoming_declared stored : KeySet) (role : String) (sigs : List Signature)
    → incoming_declared ≢ []
    → require_regime_transition_consent [] incoming_declared stored role sigs ≡ ok tt
    → (k : String) → has stored k ≡ true
    → any (signs_as role k) sigs ≡ true
unfolding require_regime_transition_consent
require_regime_transition_consent_lem [] stored role sigs n e k h = absurd (n refl)
require_regime_transition_consent_lem (j ∷ incoming_declared) stored role sigs n e k h =
    rw has-owner_set_nil at (missing_from-nil _ stored (require_none-nil _ _ e) k h)

has-key : (owners : KeySet) (k : String) → has owners k ≡ true → owners ≢ []
unfolding has
has-key [] k h e = cc
has-key (j ∷ owners) k h e = cc

signed_by_owner_lem :
    (owners : KeySet) (role : String) (sigs : List Signature)
    → signed_by_owner owners role sigs
      ≡ any (λ s. has owners (trim_space s.kid) && s.role == role) sigs
unfolding signed_by_owner
signed_by_owner_lem owners role [] = refl
signed_by_owner_lem owners role (s ∷ sigs) = ground (arith, signed_by_owner_lem owners role sigs)

nobody_signs :
    (role : String) (sigs : List Signature)
    → any (λ s. has [] (trim_space s.kid) && s.role == role) sigs ≡ true
    → ⊥
unfolding has
nobody_signs role [] e = cc
nobody_signs role (s ∷ sigs) e = nobody_signs role sigs e

-- Authority is accepted exactly where some entry carries an owner's key in the owner role.
pub require_owner_signature_iff :
    (owners : KeySet) (role : String) (sigs : List Signature) (missing : Error)
    → (require_owner_signature owners role sigs missing ≡ ok tt)
      ↔ (any (λ s. has owners (trim_space s.kid) && s.role == role) sigs ≡ true)
unfolding require_owner_signature
require_owner_signature_iff [] role sigs missing = (λ e. cc, λ e. absurd (nobody_signs role sigs e))
require_owner_signature_iff (k ∷ owners) role sigs missing =
    rw (← signed_by_owner_lem (k ∷ owners) role sigs) (ground arith)
