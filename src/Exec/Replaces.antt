-- ===== src/Exec/Replaces.antt =====
-- What a successful replace of a playlist has established.
use dp1_feed_v.Shared.{
  String, ◌≡◌, refl, true, false, Option, none, some, List, [], ◌∷◌, any, ok, bind-eq-ok,
  then-eq-ok, ok-injective, subst,
}
use dp1_feed_v.Errors.{not_resource_owner}
use dp1_feed_v.Models.{
  Bytes, UuidValue, Signature, PlaylistRequest, SignedIntent, role_curator, action_replace,
  target_playlist,
}
use dp1_feed_v.Platform.{Platform, ValidatorSigner}
use dp1_feed_v.Owner.{
  KeySet, has, entity_key_set, owner_set, require_declaration_retained, require_unambiguous_owner,
  require_owners_retained, require_regime_transition_consent, require_new_owner_consent,
  require_owner_signature,
}
use dp1_feed_v.Owner.Sets.{Subset, signs_as}
use dp1_feed_v.Owner.Laws.{require_owners_retained_iff, require_new_owner_consent_lem}
use dp1_feed_v.Auth.{
  SignedIdentity, verify_intent, must_match_stored, accept_verified, require_signatures,
  require_item_ids, new_signed_identity,
}
use dp1_feed_v.Auth.Laws.{Authorizes, verify_intent_sound, accept_verified_lem}
use dp1_feed_v.Store
use dp1_feed_v.Store.{Db, PlaylistRecord}
use dp1_feed_v.Exec.Settings.{Impl, Call}
use dp1_feed_v.Exec.Steps.{sign_and_validate_playlist}
use dp1_feed_v.Exec.Playlists.{Authorized, check_replace, authorize_replace}

module _ (p : Platform) (dp1 : ValidatorSigner) (e : Impl) (call : Call) where
  -- The facts behind an authorized replace: where its record and its owner sets come from, that no owner
  -- goes, that each new one signed, that all entries verify, and what the intent shows.
  pub record IsAuthorized (key : String) (req : PlaylistRequest) (intent : Option SignedIntent)
      (db : Db) (a : Authorized) : Type 0 where
    pub read : Store.get_playlist p key db ≡ ok a.target
    pub stored_from :
        a.stored
        ≡ owner_set (entity_key_set a.target.body.curators) role_curator a.target.body.signatures
    pub incoming_from :
        a.incoming ≡ owner_set (entity_key_set req.curators) role_curator req.signatures
    pub identity : SignedIdentity
    pub asserted :
        new_signed_identity p call.now_identity req.id req.created req.slug req.raw ≡ ok identity
    pub same_identity :
        must_match_stored p identity a.target.row.id a.target.row.slug a.target.body.created ≡ ok tt
    pub declaration_retained :
        require_declaration_retained
          (entity_key_set a.target.body.curators)
          (entity_key_set req.curators)
        ≡ ok tt
    pub retained : Subset a.stored a.incoming
    pub consented :
        (k : String)
        → has a.incoming k ≡ true
        → has a.stored k ≡ false
        → any (signs_as role_curator k) req.signatures ≡ true
    pub verified :
        (failed : List Signature) × (dp1.verify_playlist_signatures req.raw ≡ ok (true, failed))
    pub intent_given :
        (i : SignedIntent) × (intent ≡ some i)
        × Authorizes p dp1 e.intent_skew call.now_intent i action_replace target_playlist
            a.target.row.id a.target.row.slug a.stored role_curator req.raw
    pub cosigned : sign_and_validate_playlist dp1 e req.raw call.now_sign ≡ ok (a.signed, a.body)

  pub intent_sound :
      (intent : Option SignedIntent) (action kind : String) (id : UuidValue) (slug : String)
      (owners : KeySet) (role : String) (doc : Bytes)
      → verify_intent p dp1 e.intent_skew call.now_intent intent action kind id slug owners role doc
        ≡ ok tt
      → (i : SignedIntent) × (intent ≡ some i)
        × Authorizes p dp1 e.intent_skew call.now_intent i action kind id slug owners role doc
  unfolding verify_intent
  intent_sound none action kind id slug owners role doc h = cc
  intent_sound (some i) action kind id slug owners role doc h =
      (i, refl, verify_intent_sound p dp1 _ _ i _ _ id slug owners _ doc h)

  checked :
      (req : PlaylistRequest) (intent : Option SignedIntent) (rec : PlaylistRecord)
      (stored incoming : KeySet)
      → check_replace p dp1 e call req intent rec stored incoming ≡ ok tt
      → ((failed : List Signature) × (dp1.verify_playlist_signatures req.raw ≡ ok (true, failed)))
        × ((k : String)
            → has incoming k ≡ true
            → has stored k ≡ false
            → any (signs_as role_curator k) req.signatures ≡ true)
        × ((i : SignedIntent) × (intent ≡ some i)
            × Authorizes p dp1 e.intent_skew call.now_intent i action_replace target_playlist
                rec.row.id rec.row.slug stored role_curator req.raw)
  unfolding check_replace
  checked req intent rec stored incoming h =
      let (vf, h1) = then-eq-ok (accept_verified (dp1.verify_playlist_signatures req.raw)) _ h in
      let (rg, h2) =
        then-eq-ok
          (require_regime_transition_consent (entity_key_set rec.body.curators)
            (entity_key_set req.curators) stored role_curator req.signatures)
          _ h1 in
      let (nc, h3) =
        then-eq-ok (require_new_owner_consent stored incoming role_curator req.signatures) _ h2 in
      let (os, vi) =
        then-eq-ok
          (require_owner_signature stored role_curator req.signatures (not_resource_owner ∷ [])) _
          h3 in
      (
        accept_verified_lem _ vf,
        require_new_owner_consent_lem stored incoming role_curator req.signatures nc,
        intent_sound intent action_replace target_playlist rec.row.id rec.row.slug stored
            role_curator req.raw vi,
      )

  -- A replace that is authorized has read its row, asserts that row's identity, keeps every stored owner,
  -- has each added owner's own signature, verifies as a whole, and comes with an intent of a stored owner
  -- that names this row and binds these bytes.
  pub authorize_replace-IsAuthorized :
      (key : String) (req : PlaylistRequest) (intent : Option SignedIntent) (db : Db)
      (a : Authorized)
      → authorize_replace p dp1 e call key req intent db ≡ ok a
      → IsAuthorized key req intent db a
  unfolding authorize_replace
  authorize_replace-IsAuthorized key req intent db a h =
      let (sg, h1) = then-eq-ok (require_signatures req.signatures) _ h in
      let (it, h2) = then-eq-ok (require_item_ids p req.items) _ h1 in
      let (rec, got, h3) = bind-eq-ok (Store.get_playlist p key db) _ h2 in
      let (si, gsi, h4) =
        bind-eq-ok (new_signed_identity p call.now_identity req.id req.created req.slug req.raw) _
          h3 in
      let (mm, h5) =
        then-eq-ok (must_match_stored p si rec.row.id rec.row.slug rec.body.created) _ h4 in
      let declared = entity_key_set rec.body.curators in
      let declares = entity_key_set req.curators in
      let stored = owner_set declared role_curator rec.body.signatures in
      let incoming = owner_set declares role_curator req.signatures in
      let (dr, h6) = then-eq-ok (require_declaration_retained declared declares) _ h5 in
      let (un, h7) =
        then-eq-ok (require_unambiguous_owner declares role_curator req.signatures) _ h6 in
      let (re, h8) = then-eq-ok (require_owners_retained stored incoming) _ h7 in
      let (ck, h9) = then-eq-ok (check_replace p dp1 e call req intent rec stored incoming) _ h8 in
      let (sd, sgn, fin) =
        bind-eq-ok (sign_and_validate_playlist dp1 e req.raw call.now_sign) _ h9 in
      let (vf, con, int) = checked req intent rec stored incoming ck in
      subst (IsAuthorized key req intent db) (ok-injective fin) (record {
        read = got;
        stored_from = refl;
        incoming_from = refl;
        identity = si;
        asserted = gsi;
        same_identity = mm;
        declaration_retained = dr;
        retained = (require_owners_retained_iff stored incoming).0 re;
        consented = con;
        verified = vf;
        intent_given = int;
        cosigned = sgn;
      })
