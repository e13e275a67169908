-- ===== src/Exec/Commits.antt =====
-- `ReplacePlaylist` and `DeletePlaylist` as a whole: what was authorized at the read, and what the write
-- then did to the state that it found.
use dp1_feed_v.Shared.{
  String, ◌≡◌, refl, sym, Option, some, List, [], ok, bind-eq-ok, then-eq-ok, ok-injective, subst,
  arith,
}
use dp1_feed_v.Errors.{Result}
use dp1_feed_v.Models.{
  UuidValue, PlaylistRequest, SignedIntent, role_curator, action_delete, target_playlist,
}
use dp1_feed_v.Platform.{Platform, ValidatorSigner}
use dp1_feed_v.Owner.{entity_key_set, owner_set}
use dp1_feed_v.Auth.{verify_intent}
use dp1_feed_v.Auth.Laws.{Authorizes}
use dp1_feed_v.Store
use dp1_feed_v.Store.{Db, PlaylistRecord}
use dp1_feed_v.Store.Rows.{IsRewritten, IsErased}
use dp1_feed_v.Store.Writes.{
  IsCascaded, update_playlist_generation, delete_playlist-IsErased, delete_playlist-IsCascaded,
}
use dp1_feed_v.Exec.Settings.{
  Impl, Call, Event, run_channel_mutation, run_playlist_mutation, wants_listing_channels,
}
use dp1_feed_v.Exec.Playlists.{
  SignedPlaylist, Authorized, authorize_replace, replace_playlist, authorize_delete,
  delete_playlist,
}
use dp1_feed_v.Exec.Replaces.{IsAuthorized, authorize_replace-IsAuthorized, intent_sound}

pub run_playlist_mutation-eq-ok {ℓ} :
    {A : Type ℓ} (e : Impl) (call : Call) (mutate : Result A) {a : A}
    → run_playlist_mutation e call mutate ≡ ok a
    → mutate ≡ ok a
unfolding run_playlist_mutation run_channel_mutation
run_playlist_mutation-eq-ok e call mutate h = ground (arith, h)

module _ (p : Platform) (dp1 : ValidatorSigner) (e : Impl) (call : Call) where
  -- What a replace that returned a playlist has done.
  pub record IsReplaced (key : String) (req : PlaylistRequest) (intent : Option SignedIntent)
      (db db' : Db) (out : SignedPlaylist) (db'' : Db) : Type 0 where
    pub authorized : Authorized
    pub authorized_at_read : IsAuthorized p dp1 e call key req intent db authorized
    pub returned_id : out.id ≡ authorized.target.row.id
    pub returned_bytes : out.raw ≡ authorized.signed
    pub rewritten :
        IsRewritten out.id
          (p.jsonb_text out.raw)
          authorized.target.row.updated_at
          db'.playlists
          db''.playlists

  -- A replace that returns a playlist was authorized against the row that it read, and its one write
  -- put the JSONB of the co-signed bytes in the place of exactly that generation of that row.
  pub replace_playlist-IsReplaced :
      (key : String) (req : PlaylistRequest) (intent : Option SignedIntent) (db db' : Db)
      (out : SignedPlaylist) (db'' : Db) (events : List Event)
      → ((id : UuidValue) → p.parse_uuid (p.show_uuid id) ≡ some id)
      → replace_playlist p dp1 e call key req intent db db' ≡ ok (out, db'', events)
      → IsReplaced key req intent db db' out db''
  unfolding replace_playlist
  replace_playlist-IsReplaced key req intent db db' out db'' events uuids h =
      let (a, auth, h1) = bind-eq-ok (authorize_replace p dp1 e call key req intent db) _ h in
      let (done, ran, fin) =
        bind-eq-ok
          (run_playlist_mutation e call (
            Store.update_playlist p call.now_commit (p.show_uuid a.target.row.id) a.signed
              a.target.row.updated_at (wants_listing_channels e) call.listing_read db'))
          _ h1 in
      let wrote = run_playlist_mutation-eq-ok e call _ ran in
      subst (λ (r : SignedPlaylist × Db × List Event). IsReplaced key req intent db db' r.0 r.1)
        (ok-injective fin)
        (record {
          authorized = a;
          authorized_at_read = authorize_replace-IsAuthorized p dp1 e call key req intent db a auth;
          returned_id = refl;
          returned_bytes = refl;
          rewritten =
              update_playlist_generation p call.now_commit _ a.target.row.id a.signed
                a.target.row.updated_at _ _ db' done.0 done.1 (uuids a.target.row.id) wrote;
        })

  -- What a delete that returned has done.
  pub record IsDeleted (key : String) (intent : Option SignedIntent) (db db' db'' : Db)
      : Type 0 where
    pub target : PlaylistRecord
    pub read : Store.get_playlist p key db ≡ ok target
    pub intent_given :
        (i : SignedIntent) × (intent ≡ some i)
        × Authorizes p dp1 e.intent_skew call.now_intent i action_delete target_playlist
            target.row.id target.row.slug
            (owner_set (entity_key_set target.body.curators) role_curator target.body.signatures)
            role_curator
            []
    pub erased : IsErased target.row.id target.row.updated_at db'.playlists db''.playlists
    pub cascaded : IsCascaded target.row.id db' db''

  -- A delete that returns without an error was authorized by an owner's delete intent against the row
  -- that it read, and it removed exactly that generation of that row and left its tombstone; the other playlists,
  -- the groups and the channels are as they were, and of the rows that refer to a playlist (items,
  -- memberships, sources) exactly those of this one are gone.
  pub delete_playlist-IsDeleted :
      (key : String) (intent : Option SignedIntent) (db db' db'' : Db) (events : List Event)
      → ((id : UuidValue) → p.parse_uuid (p.show_uuid id) ≡ some id)
      → delete_playlist p dp1 e call key intent db db' ≡ ok (db'', events)
      → IsDeleted key intent db db' db''
  unfolding delete_playlist authorize_delete
  delete_playlist-IsDeleted key intent db db' db'' events uuids h =
      let (rec, auth, h1) = bind-eq-ok (authorize_delete p dp1 e call key intent db) _ h in
      let (done, ran, fin) =
        bind-eq-ok
          (run_playlist_mutation e call (
            Store.delete_playlist p (p.show_uuid rec.row.id) rec.row.updated_at
              (wants_listing_channels e) call.listing_read db'))
          _ h1 in
      let (target, got, h2) = bind-eq-ok (Store.get_playlist p key db) _ auth in
      let (vi, same) =
        then-eq-ok
          (verify_intent p dp1 e.intent_skew call.now_intent intent action_delete target_playlist
            target.row.id target.row.slug
            (owner_set (entity_key_set target.body.curators) role_curator target.body.signatures)
            role_curator [])
          _ h2 in
      let wrote = run_playlist_mutation-eq-ok e call _ ran in
      let erased : IsErased rec.row.id rec.row.updated_at db'.playlists done.0.playlists =
        delete_playlist-IsErased p _ rec.row.id rec.row.updated_at _ _ db' done.0 done.1
          (uuids rec.row.id) wrote in
      subst (λ (r : Db × List Event). IsDeleted key intent db db' r.0) (ok-injective fin)
        (record {
          target = target;
          read = got;
          intent_given =
              intent_sound p dp1 e call intent action_delete target_playlist target.row.id
                target.row.slug _ role_curator [] vi;
          erased =
              subst
                (λ (r : PlaylistRecord).
                  IsErased r.row.id r.row.updated_at db'.playlists done.0.playlists)
                (sym (ok-injective same)) erased;
          cascaded =
              subst (λ (r : PlaylistRecord). IsCascaded r.row.id db' done.0)
                (sym (ok-injective same))
                (delete_playlist-IsCascaded p _ rec.row.id rec.row.updated_at _ _ db' done.0 done.1
                  (uuids rec.row.id) wrote);
        })
