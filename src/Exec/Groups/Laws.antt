-- ===== src/Exec/Groups/Laws.antt =====
-- What a create and a replace of a group were authorized by, and what they wrote.
use dp1_feed_v.Shared.{
  String, ◌≡◌, refl, true, Option, some, List, [], ◌∷◌, ok, bind-eq-ok, then-eq-ok, ok-injective,
  subst,
}
use dp1_feed_v.Errors.{not_resource_owner}
use dp1_feed_v.Models.{
  UuidValue, Signature, GroupRequest, SignedIntent, IngestedPlaylist, role_curator, action_replace,
  target_playlist_group,
}
use dp1_feed_v.Platform.{Platform, ValidatorSigner}
use dp1_feed_v.Owner.{
  KeySet, owner_set, require_unambiguous_owner, require_group_curator_consistent,
  stored_group_owner_set, require_owners_retained, require_owner_signature,
}
use dp1_feed_v.Owner.Sets.{Subset}
use dp1_feed_v.Owner.Laws.{require_owners_retained_iff}
use dp1_feed_v.Auth.{
  SignedIdentity, require_signatures, new_signed_identity, must_match_stored, accept_verified,
}
use dp1_feed_v.Auth.Laws.{Authorizes, accept_verified_lem}
use dp1_feed_v.Store
use dp1_feed_v.Store.{Db, GroupRecord, ContainerInput}
use dp1_feed_v.Store.Updates.{IsRelisted, update_playlist_group-IsRelisted}
use dp1_feed_v.Exec.Settings.{Impl, Call}
use dp1_feed_v.Exec.References.{Fetcher, Snapshots, resolve_playlist_uris}
use dp1_feed_v.Exec.Replaces.{intent_sound}
use dp1_feed_v.Exec.Groups.{
  SignedGroup, AuthorizedGroup, sign_and_validate_playlist_group, check_group_replace,
  authorize_group_replace, replace_playlist_group,
}

module _ (p : Platform) (dp1 : ValidatorSigner) (e : Impl) (call : Call) where
  -- The facts behind an authorized replace of a group.
  pub record IsAuthorizedGroup (key : String) (req : GroupRequest) (intent : Option SignedIntent)
      (db : Db) (a : AuthorizedGroup) : Type 0 where
    pub read : Store.get_playlist_group p key db ≡ ok a.target
    pub owned : stored_group_owner_set a.target.body ≡ ok a.stored
    pub identity : SignedIdentity
    pub asserted :
        new_signed_identity p call.now_identity req.id req.created req.slug req.raw ≡ ok identity
    pub same_identity :
        must_match_stored p identity a.target.row.id a.target.row.slug a.target.body.created ≡ ok tt
    pub unambiguous : require_unambiguous_owner [] role_curator req.signatures ≡ ok tt
    pub consistent : require_group_curator_consistent req.curator req.signatures ≡ ok tt
    pub retained : Subset a.stored (owner_set [] role_curator req.signatures)
    pub verified :
        (failed : List Signature) × (dp1.verify_playlist_group_signatures req.raw
          ≡ ok (true, failed))
    pub intent_given :
        (i : SignedIntent) × (intent ≡ some i)
        × Authorizes p dp1 e.intent_skew call.now_intent i action_replace target_playlist_group
            a.target.row.id a.target.row.slug a.stored role_curator req.raw
    pub cosigned :
        sign_and_validate_playlist_group dp1 req.raw call.now_sign ≡ ok (a.signed, a.body)

  checked :
      (req : GroupRequest) (intent : Option SignedIntent) (rec : GroupRecord) (stored : KeySet)
      → check_group_replace p dp1 e call req intent rec stored ≡ ok tt
      → ((failed : List Signature) × (dp1.verify_playlist_group_signatures req.raw
            ≡ ok (true, failed)))
        × ((i : SignedIntent) × (intent ≡ some i)
            × Authorizes p dp1 e.intent_skew call.now_intent i action_replace target_playlist_group
                rec.row.id rec.row.slug stored role_curator req.raw)
  unfolding check_group_replace
  checked req intent rec stored h =
      let (vf, h1) =
        then-eq-ok (accept_verified (dp1.verify_playlist_group_signatures req.raw)) _ h in
      let (os, vi) =
        then-eq-ok
          (require_owner_signature stored role_curator req.signatures (not_resource_owner ∷ [])) _
          h1 in
      (
        accept_verified_lem _ vf,
        intent_sound p dp1 e call intent action_replace target_playlist_group rec.row.id
            rec.row.slug stored role_curator req.raw vi,
      )

  pub authorize_group_replace-IsAuthorizedGroup :
      (key : String) (req : GroupRequest) (intent : Option SignedIntent) (db : Db)
      (a : AuthorizedGroup)
      → authorize_group_replace p dp1 e call key req intent db ≡ ok a
      → IsAuthorizedGroup key req intent db a
  unfolding authorize_group_replace
  authorize_group_replace-IsAuthorizedGroup key req intent db a h =
      let (sg, h1) = then-eq-ok (require_signatures req.signatures) _ h in
      let (rec, got, h2) = bind-eq-ok (Store.get_playlist_group p key db) _ h1 in
      let (si, gsi, h3) =
        bind-eq-ok (new_signed_identity p call.now_identity req.id req.created req.slug req.raw) _
          h2 in
      let (mm, h4) =
        then-eq-ok (must_match_stored p si rec.row.id rec.row.slug rec.body.created) _ h3 in
      let (un, h5) = then-eq-ok (require_unambiguous_owner [] role_curator req.signatures) _ h4 in
      let (gc, h6) =
        then-eq-ok (require_group_curator_consistent req.curator req.signatures) _ h5 in
      let (stored, own, h7) = bind-eq-ok (stored_group_owner_set rec.body) _ h6 in
      let (re, h8) =
        then-eq-ok (require_owners_retained stored (owner_set [] role_curator req.signatures)) _
          h7 in
      let (ck, h9) = then-eq-ok (check_group_replace p dp1 e call req intent rec stored) _ h8 in
      let (sd, sgn, fin) =
        bind-eq-ok (sign_and_validate_playlist_group dp1 req.raw call.now_sign) _ h9 in
      let (vf, int) = checked req intent rec stored ck in
      subst (IsAuthorizedGroup key req intent db) (ok-injective fin) (record {
        read = got;
        owned = own;
        identity = si;
        asserted = gsi;
        same_identity = mm;
        unambiguous = un;
        consistent = gc;
        retained =
            (require_owners_retained_iff stored (owner_set [] role_curator req.signatures)).0 re;
        verified = vf;
        intent_given = int;
        cosigned = sgn;
      })

  -- What a replace of a group that returned has done.
  pub record IsGroupReplaced (fetch : Fetcher) (key : String) (req : GroupRequest)
      (intent : Option SignedIntent) (db : Db) (seen : Snapshots) (db' : Db) (out : SignedGroup)
      (db'' : Db) : Type 0 where
    pub authorized : AuthorizedGroup
    pub authorized_at_read : IsAuthorizedGroup key req intent db authorized
    pub returned_id : out.id ≡ authorized.target.row.id
    pub returned_bytes : out.raw ≡ authorized.signed
    pub listed : List IngestedPlaylist
    pub resolved : resolve_playlist_uris p dp1 e call fetch seen req.playlists ≡ ok listed
    pub relisted :
        IsRelisted p out.id
          (record { id = 0; slug = ""; raw = out.raw; playlists = listed })
          authorized.target.row.updated_at
          db'.groups
          db''.groups
          db'.group_members
          db''.group_members
          db'.playlists
          db''.playlists

  -- A replace that returns a group was authorized against the row that it read; its one write put the
  -- co-signed bytes in the place of exactly that generation of that row, made its members what the
  -- references resolve to, in document order, and changed no playlist that the feed held.
  pub replace_playlist_group-IsGroupReplaced :
      (fetch : Fetcher) (key : String) (req : GroupRequest) (intent : Option SignedIntent) (db : Db)
      (seen : Snapshots) (db' : Db) (out : SignedGroup) (db'' : Db)
      → ((id : UuidValue) → p.parse_uuid (p.show_uuid id) ≡ some id)
      → replace_playlist_group p dp1 e call fetch key req intent db seen db' ≡ ok (out, db'')
      → IsGroupReplaced fetch key req intent db seen db' out db''
  unfolding replace_playlist_group
  replace_playlist_group-IsGroupReplaced fetch key req intent db seen db' out db'' uuids h =
      let (a, auth, h1) = bind-eq-ok (authorize_group_replace p dp1 e call key req intent db) _ h in
      let (listed, res, h2) =
        bind-eq-ok (resolve_playlist_uris p dp1 e call fetch seen req.playlists) _ h1 in
      let input : ContainerInput = record {
        id = 0;
        slug = "";
        raw = a.signed;
        playlists = listed;
      } in
      let (done, ran, fin) =
        bind-eq-ok
          (Store.update_playlist_group p call.now_commit (p.show_uuid a.target.row.id) input
            a.target.row.updated_at db')
          _ h2 in
      subst (λ (r : SignedGroup × Db). IsGroupReplaced fetch key req intent db seen db' r.0 r.1)
        (ok-injective fin)
        (record {
          authorized = a;
          authorized_at_read = authorize_group_replace-IsAuthorizedGroup key req intent db a auth;
          returned_id = refl;
          returned_bytes = refl;
          listed = listed;
          resolved = res;
          relisted =
              update_playlist_group-IsRelisted p call.now_commit _ a.target.row.id input
                a.target.row.updated_at db' done (uuids a.target.row.id) ran;
        })
