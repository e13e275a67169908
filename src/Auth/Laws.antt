-- ===== src/Auth/Laws.antt =====
-- What a verified intent proves.
use dp1_feed_v.Shared.{
  String, ◌≡◌, refl, ◌↔◌, ◌≤◌, ◌+◌, Bool, true, false, not, ◌&&◌, ◌||◌, Option, none, some, List,
  [], ◌∷◌, any, ◌==◌, eq_iff, nat_eq, ltb, if◌then◌else◌, Outcome, ok, err, require, bind-eq-ok,
  then-eq-ok, wrap-eq-ok, require-eq-ok, trim_space, equal_fold, arith,
}
use dp1_feed_v.Errors.{Error, Result, LibraryError}
use dp1_feed_v.Models.{Bytes, UuidValue, Time, Signature, SignedIntent}
use dp1_feed_v.Platform.{Platform, ValidatorSigner, lift}
use dp1_feed_v.Owner.{KeySet, has}
use dp1_feed_v.Owner.Laws.{require_owner_signature_iff}
use dp1_feed_v.Auth.Identity.{or_error, require_signatures}
use dp1_feed_v.Auth.Intent.{
  is_empty, default_intent_skew, require_fresh_intent_timestamp, intent_declares_payload_hash,
  accept_verified, require_intent_binds_document, verify_intent,
}

-- The instant lies within the window round `now`, which is five minutes where none is configured.
abbrev pub IsWithin : Time → Time → Time → Type 0
IsWithin skew now t =
    let window = if nat_eq skew 0 then default_intent_skew else skew in
    (now ≤ t + window) × (t ≤ now + window)

-- Some entry carries one of the keys, in the role.
abbrev pub SignedBy : KeySet → String → List Signature → Type 0
SignedBy owners role sigs = any (λ s. has owners (trim_space s.kid) && s.role == role) sigs ≡ true

lift-eq-ok {ℓ} : {A : Type ℓ} (m : Outcome LibraryError A) {a : A} → lift m ≡ ok a → m ≡ ok a
lift-eq-ok (ok b) h = ground arith
lift-eq-ok (err e) h = cc

pub or_error-eq-ok {ℓ} :
    {A : Type ℓ} (e : Error) (o : Option A) {a : A} → or_error e o ≡ ok a → o ≡ some a
or_error-eq-ok e none h = cc
or_error-eq-ok e (some b) h = ground arith

pub accept_verified_lem :
    (v : Outcome LibraryError (Bool × List Signature))
    → accept_verified v ≡ ok tt
    → (failed : List Signature) × (v ≡ ok (true, failed))
unfolding accept_verified
accept_verified_lem (ok (true, failed)) h = (failed, refl)
accept_verified_lem (ok (false, failed)) h = cc
accept_verified_lem (err e) h = cc

window_lem :
    (w now t : Time) (e : Error)
    → (◌≡◌ {A = Result (Unit {0})}
        (if ltb (t + w) now || ltb (now + w) t then err e else ok tt)
        (ok tt))
      ↔ ((now ≤ t + w) × (t ≤ now + w))
window_lem w now t e = ground arith

require-true : (t : Bool) (e : Error) → t ≡ true → require t e ≡ ok tt
require-true true e h = refl
require-true false e h = cc

module _ (p : Platform) where
  fresh :
      (skew now : Time) (created : String)
      → require_fresh_intent_timestamp p skew now created ≡ ok tt
      → (t : Time) × (p.parse_rfc3339 (trim_space created) ≡ some t) × IsWithin skew now t
  unfolding require_fresh_intent_timestamp
  fresh skew now created h =
      let (t, parsed, inside) = bind-eq-ok _ _ h in
      (t, or_error-eq-ok _ _ parsed, (window_lem _ now t _).0 inside)

  fresh_complete :
      (skew now : Time) (created : String) (t : Time)
      → p.parse_rfc3339 (trim_space created) ≡ some t
      → IsWithin skew now t
      → require_fresh_intent_timestamp p skew now created ≡ ok tt
  unfolding require_fresh_intent_timestamp
  fresh_complete skew now created t parsed inside = rw parsed ((window_lem _ now t _).1 inside)

pub not-true : (b : Bool) → not b ≡ true → b ≡ false
not-true b h = ground arith

signed_some :
    (owners : KeySet) (role : String) (sigs : List Signature)
    → SignedBy owners role sigs
    → require_signatures sigs ≡ ok tt
unfolding require_signatures
signed_some owners role [] h = cc
signed_some owners role (s ∷ sigs) h = refl

module _ (p : Platform) (dp1 : ValidatorSigner) where
  -- A delete intent carries no payload hash, and a replace intent the hash of the document.
  abbrev pub Binds : SignedIntent → Bytes → Type 0
  Binds intent [] = intent_declares_payload_hash p intent ≡ false
  Binds intent (b ∷ doc) =
      (want : String) × (dp1.payload_hash (b ∷ doc) ≡ ok want)
      × (equal_fold (trim_space intent.payload_hash) want ≡ true)

  Binds-sound :
      (intent : SignedIntent) (doc : Bytes)
      → require_intent_binds_document p dp1 intent doc ≡ ok tt
      → Binds intent doc
  unfolding require_intent_binds_document
  Binds-sound intent [] h = ground arith
  Binds-sound intent (b ∷ doc) h =
      let (want, hashed, same) = bind-eq-ok _ _ h in
      (want, lift-eq-ok _ (wrap-eq-ok _ _ hashed), require-eq-ok _ _ same)

  Binds-complete :
      (intent : SignedIntent) (doc : Bytes)
      → Binds intent doc
      → require_intent_binds_document p dp1 intent doc ≡ ok tt
  unfolding require_intent_binds_document
  Binds-complete intent [] h = rw h
  Binds-complete intent (b ∷ doc) (want, hashed, same) = rw hashed (rw same)

  -- What an accepted intent has been shown to say, and by whom.
  pub record Authorizes (skew now : Time) (intent : SignedIntent) (action kind : String)
      (id : UuidValue) (slug : String) (owners : KeySet) (role : String) (doc : Bytes)
      : Type 0 where
    pub present : is_empty intent.raw ≡ false
    pub action_named : intent.action ≡ action
    pub kind_named : intent.target.kind ≡ kind
    pub id_named : trim_space intent.target.id ≡ p.show_uuid id
    pub slug_named : intent.target.slug ≡ slug
    pub binds : Binds intent doc
    pub fresh_at :
        (t : Time) × (p.parse_rfc3339 (trim_space intent.created) ≡ some t) × IsWithin skew now t
    pub verified :
        (failed : List Signature) × (dp1.verify_signatures intent.raw ≡ ok (true, failed))
    pub by_owner : SignedBy owners role intent.signatures

  module _ (skew now : Time) (intent : SignedIntent) (action kind : String) (id : UuidValue)
      (slug : String) (owners : KeySet) (role : String) (doc : Bytes) where
    pub verify_intent_sound :
        verify_intent p dp1 skew now (some intent) action kind id slug owners role doc ≡ ok tt
        → Authorizes skew now intent action kind id slug owners role doc
    unfolding verify_intent
    verify_intent_sound h =
        let (raw, h1) = then-eq-ok _ _ h in
        let (act, h2) = then-eq-ok _ _ h1 in
        let (knd, h3) = then-eq-ok _ _ h2 in
        let (tid, h4) = then-eq-ok _ _ h3 in
        let (tsl, h5) = then-eq-ok _ _ h4 in
        let (bnd, h6) = then-eq-ok _ _ h5 in
        let (frs, h7) = then-eq-ok _ _ h6 in
        let (sgs, h8) = then-eq-ok _ _ h7 in
        let (vrf, own) = then-eq-ok _ _ h8 in
        record {
          present = not-true _ (require-eq-ok _ _ raw);
          action_named = (eq_iff _ _).0 (require-eq-ok _ _ act);
          kind_named = (eq_iff _ _).0 (require-eq-ok _ _ knd);
          id_named = (eq_iff _ _).0 (require-eq-ok _ _ tid);
          slug_named = (eq_iff _ _).0 (require-eq-ok _ _ tsl);
          binds = Binds-sound intent doc bnd;
          fresh_at = fresh p skew now intent.created frs;
          verified = accept_verified_lem _ vrf;
          by_owner = (require_owner_signature_iff owners role intent.signatures _).0 own;
        }

    verify_intent_complete :
        Authorizes skew now intent action kind id slug owners role doc
        → verify_intent p dp1 skew now (some intent) action kind id slug owners role doc ≡ ok tt
    unfolding verify_intent accept_verified
    verify_intent_complete a =
        let (t, parsed, inside) = a.fresh_at in
        let (failed, verdict) = a.verified in
        rw a.present (
          rw (require-true _ _ ((eq_iff _ _).1 a.action_named)) (
            rw (require-true _ _ ((eq_iff _ _).1 a.kind_named)) (
              rw (require-true _ _ ((eq_iff _ _).1 a.id_named)) (
                rw (require-true _ _ ((eq_iff _ _).1 a.slug_named)) (
                  rw (Binds-complete intent doc a.binds) (
                    rw (fresh_complete p skew now intent.created t parsed inside) (
                      rw (signed_some owners role intent.signatures a.by_owner) (
                        rw verdict (
                          (require_owner_signature_iff owners role intent.signatures _).1
                            a.by_owner)))))))))

    -- An intent is accepted exactly when it names the action, the kind of resource, its id and its slug,
    -- binds the document (or, for a delete, none), was created within the window round the clock, carries
    -- entries that all verify over its bytes, and one of them is an owner's in the owner role.
    pub verify_intent_iff :
        (verify_intent p dp1 skew now (some intent) action kind id slug owners role doc ≡ ok tt)
        ↔ Authorizes skew now intent action kind id slug owners role doc
    verify_intent_iff = (verify_intent_sound, verify_intent_complete)
