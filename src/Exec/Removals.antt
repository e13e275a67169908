-- ===== src/Exec/Removals.antt =====
-- What a delete of a group or channel was authorized by, and what it removed.
use dp1_feed_v.Shared.{
  String, ◌≡◌, true, Option, some, List, [], ◌∷◌, ok, require, bind-eq-ok, then-eq-ok, ok-injective,
  subst, arith, require-eq-ok,
}
use dp1_feed_v.Errors.{Result, extensions_disabled}
use dp1_feed_v.Models.{
  UuidValue, SignedIntent, role_curator, role_publisher, action_delete, target_playlist_group,
  target_channel,
}
use dp1_feed_v.Platform.{Platform, ValidatorSigner}
use dp1_feed_v.Owner.{KeySet, publisher_key_set, owner_set, stored_group_owner_set}
use dp1_feed_v.Auth.{verify_intent}
use dp1_feed_v.Auth.Laws.{Authorizes}
use dp1_feed_v.Store
use dp1_feed_v.Store.{Db, GroupRecord, ChannelRecord}
use dp1_feed_v.Store.Rows.{IsErased}
use dp1_feed_v.Store.Updates.{delete_channel-IsErased, delete_playlist_group-IsErased}
use dp1_feed_v.Exec.Settings.{Impl, Call, Event, run_channel_mutation}
use dp1_feed_v.Exec.Deletes.{delete_playlist_group, delete_channel}
use dp1_feed_v.Exec.Replaces.{intent_sound}

pub run_channel_mutation-eq-ok {ℓ} :
    {A : Type ℓ} (e : Impl) (call : Call) (mutate : Result A) {a : A}
    → run_channel_mutation e call mutate ≡ ok a
    → mutate ≡ ok a
unfolding run_channel_mutation
run_channel_mutation-eq-ok e call mutate h = ground (arith, h)

module _ (p : Platform) (dp1 : ValidatorSigner) (e : Impl) (call : Call) where
  -- What a delete of a group that returned has done.
  pub record IsGroupDeleted (key : String) (intent : Option SignedIntent) (db db' db'' : Db)
      : Type 0 where
    pub target : GroupRecord
    pub owners : KeySet
    pub read : Store.get_playlist_group p key db ≡ ok target
    pub owned : stored_group_owner_set target.body ≡ ok owners
    pub intent_given :
        (i : SignedIntent) × (intent ≡ some i)
        × Authorizes p dp1 e.intent_skew call.now_intent i action_delete target_playlist_group
            target.row.id target.row.slug owners role_curator []
    pub erased : IsErased target.row.id target.row.updated_at db'.groups db''.groups

  -- A delete of a group that returns without an error was authorized by the delete intent of the group's
  -- stored owner, and it removed exactly the generation of the row that it read and left its tombstone.
  pub delete_playlist_group-IsGroupDeleted :
      (key : String) (intent : Option SignedIntent) (db db' db'' : Db)
      → ((id : UuidValue) → p.parse_uuid (p.show_uuid id) ≡ some id)
      → delete_playlist_group p dp1 e call key intent db db' ≡ ok db''
      → IsGroupDeleted key intent db db' db''
  unfolding delete_playlist_group
  delete_playlist_group-IsGroupDeleted key intent db db' db'' uuids h =
      let (target, got, h1) = bind-eq-ok (Store.get_playlist_group p key db) _ h in
      let (owners, own, h2) = bind-eq-ok (stored_group_owner_set target.body) _ h1 in
      let (vi, wrote) =
        then-eq-ok
          (verify_intent p dp1 e.intent_skew call.now_intent intent action_delete
            target_playlist_group target.row.id target.row.slug owners role_curator [])
          _ h2 in
      record {
        target = target;
        owners = owners;
        read = got;
        owned = own;
        intent_given =
            intent_sound p dp1 e call intent action_delete target_playlist_group target.row.id
              target.row.slug owners role_curator [] vi;
        erased =
            delete_playlist_group-IsErased p _ target.row.id target.row.updated_at db' db''
              (uuids target.row.id) wrote;
      }

  -- What a delete of a channel that returned has done.
  pub record IsChannelDeleted (key : String) (intent : Option SignedIntent) (db db' db'' : Db)
      : Type 0 where
    pub enabled : e.extensions_enabled ≡ true
    pub target : ChannelRecord
    pub read : Store.get_channel p key db ≡ ok target
    pub intent_given :
        (i : SignedIntent) × (intent ≡ some i)
        × Authorizes p dp1 e.intent_skew call.now_intent i action_delete target_channel
            target.row.id target.row.slug
            (owner_set
              (publisher_key_set target.body.publisher)
              role_publisher
              target.body.signatures)
            role_publisher
            []
    pub erased : IsErased target.row.id target.row.updated_at db'.channels db''.channels

  -- A delete of a channel that returns without an error ran with the extensions enabled, was authorized by
  -- a delete intent of the channel's stored owner, and it removed exactly the generation of the row that
  -- it read and left its tombstone.
  pub delete_channel-IsChannelDeleted :
      (key : String) (intent : Option SignedIntent) (db db' db'' : Db) (events : List Event)
      → ((id : UuidValue) → p.parse_uuid (p.show_uuid id) ≡ some id)
      → delete_channel p dp1 e call key intent db db' ≡ ok (db'', events)
      → IsChannelDeleted key intent db db' db''
  unfolding delete_channel
  delete_channel-IsChannelDeleted key intent db db' db'' events uuids h =
      let (on, h0) = then-eq-ok (require e.extensions_enabled (extensions_disabled ∷ [])) _ h in
      let (target, got, h1) = bind-eq-ok (Store.get_channel p key db) _ h0 in
      let owners =
        owner_set (publisher_key_set target.body.publisher) role_publisher target.body.signatures in
      let (vi, h2) =
        then-eq-ok
          (verify_intent p dp1 e.intent_skew call.now_intent intent action_delete target_channel
            target.row.id target.row.slug owners role_publisher [])
          _ h1 in
      let (done, ran, fin) =
        bind-eq-ok
          (run_channel_mutation e call
            (Store.delete_channel p (p.show_uuid target.row.id) target.row.updated_at db'))
          _ h2 in
      subst (λ (r : Db × List Event). IsChannelDeleted key intent db db' r.0) (ok-injective fin)
        (record {
          enabled = require-eq-ok _ _ on;
          target = target;
          read = got;
          intent_given =
              intent_sound p dp1 e call intent action_delete target_channel target.row.id
                target.row.slug owners role_publisher [] vi;
          erased =
              delete_channel-IsErased p _ target.row.id target.row.updated_at db' done
                (uuids target.row.id) (run_channel_mutation-eq-ok e call _ ran);
        })
