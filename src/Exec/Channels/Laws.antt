-- ===== src/Exec/Channels/Laws.antt =====
-- What a create and a replace of a channel were authorized by, and what they wrote.
use dp1_feed_v.Shared.{
  String, ◌≡◌, refl, true, false, Option, some, List, [], ◌∷◌, any, ok, bind-eq-ok, then-eq-ok,
  ok-injective, require-eq-ok, subst, require, if◌then◌else◌,
}
use dp1_feed_v.Errors.{not_resource_owner, extensions_disabled}
use dp1_feed_v.Models.{
  UuidValue, Signature, ChannelRequest, SignedIntent, IngestedPlaylist, role_publisher,
  action_replace, target_channel,
}
use dp1_feed_v.Platform.{Platform, ValidatorSigner}
use dp1_feed_v.Owner.{
  KeySet, has, publisher_key_set, owner_set, require_declaration_retained,
  require_unambiguous_owner, require_owners_retained, require_regime_transition_consent,
  require_new_owner_consent, require_owner_signature,
}
use dp1_feed_v.Owner.Sets.{Subset, signs_as}
use dp1_feed_v.Owner.Laws.{require_owners_retained_iff, require_new_owner_consent_lem}
use dp1_feed_v.Auth.{
  SignedIdentity, require_signatures, new_signed_identity, must_match_stored, accept_verified,
}
use dp1_feed_v.Auth.Laws.{Authorizes, accept_verified_lem}
use dp1_feed_v.Store
use dp1_feed_v.Store.{Db, ChannelRecord, ContainerInput}
use dp1_feed_v.Store.Updates.{IsRelisted, update_channel-IsRelisted}
use dp1_feed_v.Exec.Settings.{Impl, Call, Event, channel_updated, run_channel_mutation}
use dp1_feed_v.Exec.Deletes.{notify_channel}
use dp1_feed_v.Exec.References.{Fetcher, Snapshots, resolve_playlist_uris}
use dp1_feed_v.Exec.Replaces.{intent_sound}
use dp1_feed_v.Exec.Removals.{run_channel_mutation-eq-ok}
use dp1_feed_v.Exec.Channels.{
  SignedChannel, AuthorizedChannel, sign_and_validate_channel, check_channel_replace,
  authorize_channel_replace, replace_channel,
}

module _ (p : Platform) (dp1 : ValidatorSigner) (e : Impl) (call : Call) where
  -- The facts behind an authorized replace of a channel.
  pub record IsAuthorizedChannel (key : String) (req : ChannelRequest)
      (intent : Option SignedIntent) (db : Db) (a : AuthorizedChannel) : Type 0 where
    pub enabled : e.extensions_enabled ≡ true
    pub read : Store.get_channel p key db ≡ ok a.target
    pub stored_from :
        a.stored
        ≡ owner_set
            (publisher_key_set a.target.body.publisher)
            role_publisher
            a.target.body.signatures
    pub incoming_from :
        a.incoming ≡ owner_set (publisher_key_set req.publisher) role_publisher req.signatures
    pub identity : SignedIdentity
    pub asserted :
        new_signed_identity p call.now_identity req.id req.created req.slug req.raw ≡ ok identity
    pub same_identity :
        must_match_stored p identity a.target.row.id a.target.row.slug a.target.body.created ≡ ok tt
    pub retained : Subset a.stored a.incoming
    pub consented :
        (k : String)
        → has a.incoming k ≡ true
        → has a.stored k ≡ false
        → any (signs_as role_publisher k) req.signatures ≡ true
    pub verified :
        (failed : List Signature) × (dp1.verify_channel_signatures req.raw ≡ ok (true, failed))
    pub intent_given :
        (i : SignedIntent) × (intent ≡ some i)
        × Authorizes p dp1 e.intent_skew call.now_intent i action_replace target_channel
            a.target.row.id a.target.row.slug a.stored role_publisher req.raw
    pub cosigned : sign_and_validate_channel dp1 req.raw call.now_sign ≡ ok (a.signed, a.body)

  checked :
      (req : ChannelRequest) (intent : Option SignedIntent) (rec : ChannelRecord)
      (stored incoming : KeySet)
      → check_channel_replace p dp1 e call req intent rec stored incoming ≡ ok tt
      → ((failed : List Signature) × (dp1.verify_channel_signatures req.raw ≡ ok (true, failed)))
        × ((k : String)
            → has incoming k ≡ true
            → has stored k ≡ false
            → any (signs_as role_publisher k) req.signatures ≡ true)
        × ((i : SignedIntent) × (intent ≡ some i)
            × Authorizes p dp1 e.intent_skew call.now_intent i action_replace target_channel
                rec.row.id rec.row.slug stored role_publisher req.raw)
  unfolding check_channel_replace
  checked req intent rec stored incoming h =
      let (vf, h1) = then-eq-ok (accept_verified (dp1.verify_channel_signatures req.raw)) _ h in
      let (rg, h2) =
        then-eq-ok
          (require_regime_transition_consent (publisher_key_set rec.body.publisher)
            (publisher_key_set req.publisher) stored role_publisher req.signatures)
          _ h1 in
      let (nc, h3) =
        then-eq-ok (require_new_owner_consent stored incoming role_publisher req.signatures) _ h2 in
      let (os, vi) =
        then-eq-ok
          (require_owner_signature stored role_publisher req.signatures (not_resource_owner ∷ [])) _
          h3 in
      (
        accept_verified_lem _ vf,
        require_new_owner_consent_lem stored incoming role_publisher req.signatures nc,
        intent_sound p dp1 e call intent action_replace target_channel rec.row.id rec.row.slug
            stored role_publisher req.raw vi,
      )

  pub authorize_channel_replace-IsAuthorizedChannel :
      (key : String) (req : ChannelRequest) (intent : Option SignedIntent) (db : Db)
      (a : AuthorizedChannel)
      → authorize_channel_replace p dp1 e call key req intent db ≡ ok a
      → IsAuthorizedChannel key req intent db a
  unfolding authorize_channel_replace
  authorize_channel_replace-IsAuthorizedChannel key req intent db a h =
      let (on, h0) = then-eq-ok (require e.extensions_enabled (extensions_disabled ∷ [])) _ h in
      let (sg, h1) = then-eq-ok (require_signatures req.signatures) _ h0 in
      let (rec, got, h2) = bind-eq-ok (Store.get_channel p key db) _ h1 in
      let (si, gsi, h3) =
        bind-eq-ok (new_signed_identity p call.now_identity req.id req.created req.slug req.raw) _
          h2 in
      let (mm, h4) =
        then-eq-ok (must_match_stored p si rec.row.id rec.row.slug rec.body.created) _ h3 in
      let declared = publisher_key_set rec.body.publisher in
      let declares = publisher_key_set req.publisher in
      let stored = owner_set declared role_publisher rec.body.signatures in
      let incoming = owner_set declares role_publisher req.signatures in
      let (dr, h5) = then-eq-ok (require_declaration_retained declared declares) _ h4 in
      let (un, h6) =
        then-eq-ok (require_unambiguous_owner declares role_publisher req.signatures) _ h5 in
      let (re, h7) = then-eq-ok (require_owners_retained stored incoming) _ h6 in
      let (ck, h8) =
        then-eq-ok (check_channel_replace p dp1 e call req intent rec stored incoming) _ h7 in
      let (sd, sgn, fin) = bind-eq-ok (sign_and_validate_channel dp1 req.raw call.now_sign) _ h8 in
      let (vf, con, int) = checked req intent rec stored incoming ck in
      subst (IsAuthorizedChannel key req intent db) (ok-injective fin) (record {
        enabled = require-eq-ok _ _ on;
        read = got;
        stored_from = refl;
        incoming_from = refl;
        identity = si;
        asserted = gsi;
        same_identity = mm;
        retained = (require_owners_retained_iff stored incoming).0 re;
        consented = con;
        verified = vf;
        intent_given = int;
        cosigned = sgn;
      })

  -- What a replace of a channel that returned has done.
  pub record IsChannelReplaced (fetch : Fetcher) (key : String) (req : ChannelRequest)
      (intent : Option SignedIntent) (db : Db) (seen : Snapshots) (db' : Db) (out : SignedChannel)
      (db'' : Db) (events : List Event) : Type 0 where
    pub told :
        events
        ≡ (if e.notified then record { type = channel_updated; channel = out.id } ∷ [] else [])
    pub authorized : AuthorizedChannel
    pub authorized_at_read : IsAuthorizedChannel key req intent db authorized
    pub returned_id : out.id ≡ authorized.target.row.id
    pub returned_bytes : out.raw ≡ authorized.signed
    pub listed : List IngestedPlaylist
    pub resolved : resolve_playlist_uris p dp1 e call fetch seen req.playlists ≡ ok listed
    pub relisted :
        IsRelisted p out.id
          (record { id = 0; slug = ""; raw = out.raw; playlists = listed })
          authorized.target.row.updated_at
          db'.channels
          db''.channels
          db'.channel_members
          db''.channel_members
          db'.playlists
          db''.playlists

  -- A replace that returns a channel was authorized against the row that it read; its one write put the
  -- JSONB of the co-signed bytes in the place of exactly that generation of that row, made its members what the
  -- references resolve to, in document order, changed no playlist that the feed held, and told the
  -- recipient, where there is one, of that channel alone.
  pub replace_channel-IsChannelReplaced :
      (fetch : Fetcher) (key : String) (req : ChannelRequest) (intent : Option SignedIntent)
      (db : Db) (seen : Snapshots) (db' : Db) (out : SignedChannel) (db'' : Db)
      (events : List Event)
      → ((id : UuidValue) → p.parse_uuid (p.show_uuid id) ≡ some id)
      → replace_channel p dp1 e call fetch key req intent db seen db' ≡ ok (out, db'', events)
      → IsChannelReplaced fetch key req intent db seen db' out db'' events
  unfolding replace_channel notify_channel
  replace_channel-IsChannelReplaced fetch key req intent db seen db' out db'' events uuids h =
      let (a, auth, h1) =
        bind-eq-ok (authorize_channel_replace p dp1 e call key req intent db) _ h in
      let (listed, res, h2) =
        bind-eq-ok (resolve_playlist_uris p dp1 e call fetch seen req.playlists) _ h1 in
      let input : ContainerInput = record {
        id = 0;
        slug = "";
        raw = a.signed;
        playlists = listed;
      } in
      let (done, ran, fin) =
        bind-eq-ok
          (run_channel_mutation e call (
            Store.update_channel p call.now_commit (p.show_uuid a.target.row.id) input
              a.target.row.updated_at db'))
          _ h2 in
      subst
        (λ (r : SignedChannel × Db × List Event).
          IsChannelReplaced fetch key req intent db seen db' r.0 r.1 r.2)
        (ok-injective fin)
        (record {
          told = refl;
          authorized = a;
          authorized_at_read =
              authorize_channel_replace-IsAuthorizedChannel key req intent db a auth;
          returned_id = refl;
          returned_bytes = refl;
          listed = listed;
          resolved = res;
          relisted =
              update_channel-IsRelisted p call.now_commit _ a.target.row.id input
                a.target.row.updated_at db' done (uuids a.target.row.id)
                (run_channel_mutation-eq-ok e call _ ran);
        })
