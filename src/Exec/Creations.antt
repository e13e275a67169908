-- ===== src/Exec/Creations.antt =====
-- What a create of a playlist, group or channel was admitted by, and what it stored.
use dp1_feed_v.Shared.{
  String, ◌≡◌, Bool, true, List, [], ◌∷◌, Outcome, ok, require, bind-eq-ok, then-eq-ok,
  ok-injective, subst, sym, require-eq-ok,
}
use dp1_feed_v.Errors.{
  Error, LibraryError, no_valid_curator_signature, no_valid_publisher_signature,
  extensions_disabled,
}
use dp1_feed_v.Models.{
  Bytes, Signature, Group, Channel, PlaylistRequest, GroupRequest, ChannelRequest, role_curator,
  role_publisher,
}
use dp1_feed_v.Platform.{Platform, ValidatorSigner}
use dp1_feed_v.Owner.{
  KeySet, entity_key_set, publisher_key_set, owner_set, require_unambiguous_owner,
  require_group_curator_consistent,
}
use dp1_feed_v.Owner.Laws.{require_owner_signature_iff}
use dp1_feed_v.Auth.{
  SignedIdentity, require_signatures, require_item_ids, new_signed_identity, accept_verified,
}
use dp1_feed_v.Auth.Laws.{SignedBy, accept_verified_lem}
use dp1_feed_v.Store
use dp1_feed_v.Store.{Db, ContainerInput}
use dp1_feed_v.Store.Creations.{
  IsCreated, create_playlist-IsCreated, create_channel-IsCreated, create_playlist_group-IsCreated,
}
use dp1_feed_v.Exec.Settings.{Impl, Call, Event, run_channel_mutation}
use dp1_feed_v.Exec.Steps.{
  verify_owner_signatures, verify_playlist_owner_signatures, sign_and_validate_playlist,
}
use dp1_feed_v.Exec.Playlists.{SignedPlaylist, create_playlist}
use dp1_feed_v.Exec.References.{Fetcher, Snapshots, resolve_playlist_uris}
use dp1_feed_v.Exec.Groups.{
  SignedGroup, sign_and_validate_playlist_group, authorize_group_create, create_playlist_group,
}
use dp1_feed_v.Exec.Channels.{
  SignedChannel, sign_and_validate_channel, authorize_channel_create, create_channel,
}
use dp1_feed_v.Exec.Removals.{run_channel_mutation-eq-ok}

-- A submission that its own owner signed: the owner is unambiguous, every entry verifies over the bytes, and
-- one of them is an owner's in the owner role.
pub record IsOwned (verify : Bytes → Outcome LibraryError (Bool × List Signature)) (raw : Bytes)
    (declared : KeySet) (role : String) (sigs : List Signature) : Type 0 where
  pub unambiguous : require_unambiguous_owner declared role sigs ≡ ok tt
  pub verified : (failed : List Signature) × (verify raw ≡ ok (true, failed))
  pub by_owner : SignedBy (owner_set declared role sigs) role sigs

pub verify_owner_signatures-IsOwned :
    (verify : Bytes → Outcome LibraryError (Bool × List Signature)) (raw : Bytes)
    (declared : KeySet) (role : String) (sigs : List Signature) (missing : Error)
    → verify_owner_signatures verify raw declared role sigs missing ≡ ok tt
    → IsOwned verify raw declared role sigs
unfolding verify_owner_signatures
verify_owner_signatures-IsOwned verify raw declared role sigs missing h =
    let (un, h1) = then-eq-ok (require_unambiguous_owner declared role sigs) _ h in
    let (vf, os) = then-eq-ok (accept_verified (verify raw)) _ h1 in
    record {
      unambiguous = un;
      verified = accept_verified_lem _ vf;
      by_owner =
          (require_owner_signature_iff (owner_set declared role sigs) role sigs missing).0 os;
    }

module _ (p : Platform) (dp1 : ValidatorSigner) (e : Impl) (call : Call) where
  -- A create of a playlist that returns was signed by an owner that the document itself defines, and it
  -- stored the JSONB of the co-signed bytes under the id and slug that the document asserts, both of them free and the
  -- id never retired, and touched no other row.
  pub create_playlist-IsOwned :
      (req : PlaylistRequest) (db db' : Db) (out : SignedPlaylist)
      → create_playlist p dp1 e call req db ≡ ok (out, db')
      → IsOwned dp1.verify_playlist_signatures req.raw
          (entity_key_set req.curators)
          role_curator
          req.signatures
        × ((si : SignedIdentity) × (new_signed_identity p call.now_identity req.id req.created
                req.slug req.raw
              ≡ ok si)
            × (sign_and_validate_playlist dp1 e req.raw si.created ≡ ok (out.raw, out.body))
            × IsCreated si.id si.slug (p.jsonb_text out.raw) db.playlists db'.playlists)
  unfolding create_playlist verify_playlist_owner_signatures
  create_playlist-IsOwned req db db' out h =
      let (sg, h1) = then-eq-ok (require_signatures req.signatures) _ h in
      let (si, gsi, h2) =
        bind-eq-ok (new_signed_identity p call.now_identity req.id req.created req.slug req.raw) _
          h1 in
      let (it, h3) = then-eq-ok (require_item_ids p req.items) _ h2 in
      let (ow, h4) =
        then-eq-ok
          (verify_owner_signatures dp1.verify_playlist_signatures req.raw
            (entity_key_set req.curators) role_curator req.signatures
            (no_valid_curator_signature ∷ []))
          _ h3 in
      let (sd, sgn, h5) = bind-eq-ok (sign_and_validate_playlist dp1 e req.raw si.created) _ h4 in
      let (done, put, fin) =
        bind-eq-ok (Store.create_playlist p call.now_commit si.id si.slug sd.0 db) _ h5 in
      (
        verify_owner_signatures-IsOwned _ req.raw _ role_curator req.signatures _ ow,
        subst
            (λ (r : SignedPlaylist × Db).
              (si : SignedIdentity) × (new_signed_identity p call.now_identity req.id req.created
                  req.slug req.raw
                ≡ ok si)
              × (sign_and_validate_playlist dp1 e req.raw si.created ≡ ok (r.0.raw, r.0.body))
              × IsCreated si.id si.slug (p.jsonb_text r.0.raw) db.playlists r.1.playlists)
            (ok-injective fin)
            (
              si,
              gsi,
              sgn,
              create_playlist-IsCreated p call.now_commit si.id si.slug sd.0 db done put,
            ),
      )

  -- A create of a channel that returns ran with the extensions enabled, was signed by an owner that the
  -- document itself defines, and stored the JSONB of the co-signed bytes under the id and slug that the document
  -- asserts, both of them free and the id never retired, and touched no other channel.
  pub create_channel-IsOwned :
      (fetch : Fetcher) (req : ChannelRequest) (seen : Snapshots) (db db' : Db)
      (out : SignedChannel) (events : List Event)
      → create_channel p dp1 e call fetch req seen db ≡ ok (out, db', events)
      → (e.extensions_enabled ≡ true)
        × IsOwned dp1.verify_channel_signatures req.raw
            (publisher_key_set req.publisher)
            role_publisher
            req.signatures
        × ((si : SignedIdentity) × (new_signed_identity p call.now_identity req.id req.created
                req.slug req.raw
              ≡ ok si)
            × (sign_and_validate_channel dp1 req.raw si.created ≡ ok (out.raw, out.body))
            × IsCreated si.id si.slug (p.jsonb_text out.raw) db.channels db'.channels)
  unfolding create_channel authorize_channel_create
  create_channel-IsOwned fetch req seen db db' out events h =
      let (a, auth, k1) = bind-eq-ok (authorize_channel_create p dp1 e call req) _ h in
      let (on, h0) = then-eq-ok (require e.extensions_enabled (extensions_disabled ∷ [])) _ auth in
      let (sg, h1) = then-eq-ok (require_signatures req.signatures) _ h0 in
      let (si, gsi, h2) =
        bind-eq-ok (new_signed_identity p call.now_identity req.id req.created req.slug req.raw) _
          h1 in
      let (ow, h3) =
        then-eq-ok
          (verify_owner_signatures dp1.verify_channel_signatures req.raw
            (publisher_key_set req.publisher) role_publisher req.signatures
            (no_valid_publisher_signature ∷ []))
          _ h2 in
      let (sd, sgn, h4) = bind-eq-ok (sign_and_validate_channel dp1 req.raw si.created) _ h3 in
      let (listed, res, k2) =
        bind-eq-ok (resolve_playlist_uris p dp1 e call fetch seen req.playlists) _ k1 in
      let (done, ran, fin) =
        bind-eq-ok
          (run_channel_mutation e call (
            Store.create_channel p call.now_commit
              (record { id = a.0.id; slug = a.0.slug; raw = a.1; playlists = listed }) db))
          _ k2 in
      let made =
        create_channel-IsCreated p call.now_commit
          (record { id = a.0.id; slug = a.0.slug; raw = a.1; playlists = listed }) db done
          (run_channel_mutation-eq-ok e call _ ran) in
      let same = ok-injective h4 in
      (
        require-eq-ok _ _ on,
        verify_owner_signatures-IsOwned _ req.raw _ role_publisher req.signatures _ ow,
        subst
            (λ (r : SignedChannel × Db × List Event).
              (si : SignedIdentity) × (new_signed_identity p call.now_identity req.id req.created
                  req.slug req.raw
                ≡ ok si)
              × (sign_and_validate_channel dp1 req.raw si.created ≡ ok (r.0.raw, r.0.body))
              × IsCreated si.id si.slug (p.jsonb_text r.0.raw) db.channels r.1.channels)
            (ok-injective fin)
            (subst
              (λ (r : SignedIdentity × Bytes × Channel).
                (si : SignedIdentity) × (new_signed_identity p call.now_identity req.id req.created
                    req.slug req.raw
                  ≡ ok si)
                × (sign_and_validate_channel dp1 req.raw si.created ≡ ok (r.1, r.2))
                × IsCreated si.id si.slug (p.jsonb_text r.1) db.channels done.channels)
              same
              (
                si,
                gsi,
                sgn,
                subst
                    (λ (r : SignedIdentity × Bytes × Channel).
                      IsCreated r.0.id r.0.slug (p.jsonb_text r.1) db.channels done.channels)
                    (sym same) made,
              )),
      )

  -- A create of a group that returns was signed by its one curator-role signer, has a curator name that does
  -- not contradict that signer, and stored the JSONB of the co-signed bytes under the id and slug that the document
  -- asserts, both of them free and the id never retired, and touched no other group.
  pub create_playlist_group-IsOwned :
      (fetch : Fetcher) (req : GroupRequest) (seen : Snapshots) (db db' : Db) (out : SignedGroup)
      → create_playlist_group p dp1 e call fetch req seen db ≡ ok (out, db')
      → (require_group_curator_consistent req.curator req.signatures ≡ ok tt)
        × IsOwned dp1.verify_playlist_group_signatures req.raw [] role_curator req.signatures
        × ((si : SignedIdentity) × (new_signed_identity p call.now_identity req.id req.created
                req.slug req.raw
              ≡ ok si)
            × (sign_and_validate_playlist_group dp1 req.raw si.created ≡ ok (out.raw, out.body))
            × IsCreated si.id si.slug (p.jsonb_text out.raw) db.groups db'.groups)
  unfolding create_playlist_group authorize_group_create
  create_playlist_group-IsOwned fetch req seen db db' out h =
      let (a, auth, k1) = bind-eq-ok (authorize_group_create p dp1 e call req) _ h in
      let (sg, h1) = then-eq-ok (require_signatures req.signatures) _ auth in
      let (si, gsi, h2) =
        bind-eq-ok (new_signed_identity p call.now_identity req.id req.created req.slug req.raw) _
          h1 in
      let (gc, h3) =
        then-eq-ok (require_group_curator_consistent req.curator req.signatures) _ h2 in
      let (ow, h4) =
        then-eq-ok
          (verify_owner_signatures dp1.verify_playlist_group_signatures req.raw [] role_curator
            req.signatures (no_valid_curator_signature ∷ []))
          _ h3 in
      let (sd, sgn, h5) =
        bind-eq-ok (sign_and_validate_playlist_group dp1 req.raw si.created) _ h4 in
      let (listed, res, k2) =
        bind-eq-ok (resolve_playlist_uris p dp1 e call fetch seen req.playlists) _ k1 in
      let (done, put, fin) =
        bind-eq-ok
          (Store.create_playlist_group p call.now_commit
            (record { id = a.0.id; slug = a.0.slug; raw = a.1; playlists = listed }) db)
          _ k2 in
      let made =
        create_playlist_group-IsCreated p call.now_commit
          (record { id = a.0.id; slug = a.0.slug; raw = a.1; playlists = listed }) db done put in
      let same = ok-injective h5 in
      (
        gc,
        verify_owner_signatures-IsOwned _ req.raw _ role_curator req.signatures _ ow,
        subst
            (λ (r : SignedGroup × Db).
              (si : SignedIdentity) × (new_signed_identity p call.now_identity req.id req.created
                  req.slug req.raw
                ≡ ok si)
              × (sign_and_validate_playlist_group dp1 req.raw si.created ≡ ok (r.0.raw, r.0.body))
              × IsCreated si.id si.slug (p.jsonb_text r.0.raw) db.groups r.1.groups)
            (ok-injective fin)
            (subst
              (λ (r : SignedIdentity × Bytes × Group).
                (si : SignedIdentity) × (new_signed_identity p call.now_identity req.id req.created
                    req.slug req.raw
                  ≡ ok si)
                × (sign_and_validate_playlist_group dp1 req.raw si.created ≡ ok (r.1, r.2))
                × IsCreated si.id si.slug (p.jsonb_text r.1) db.groups done.groups)
              same
              (
                si,
                gsi,
                sgn,
                subst
                    (λ (r : SignedIdentity × Bytes × Group).
                      IsCreated r.0.id r.0.slug (p.jsonb_text r.1) db.groups done.groups)
                    (sym same) made,
              )),
      )
