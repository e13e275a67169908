-- ===== src/Store/Updates.antt =====
-- The updates of groups and channels, taken apart.
use dp1_feed_v.Shared.{
  String, ◌≡◌, sym, ◌∙◌, ap, subst, some, List, ◌++◌, ok, bind-eq-ok, then-eq-ok, ok-injective,
}
use dp1_feed_v.Models.{UuidValue, Time, Row, IngestedPlaylist}
use dp1_feed_v.Platform.{Platform}
use dp1_feed_v.Store.Tables.{
  DocTable, find_id, require_document, require_not_tombstoned, insert_row, update_document,
  delete_document,
}
use dp1_feed_v.Store.Playlists.{Db, Member, resolve_document_id}
use dp1_feed_v.Store.Ingest.{insert_missing_playlists_batch}
use dp1_feed_v.Store.Containers.{
  delete_channel, delete_playlist_group, ContainerInput, members, members_of_others, container_row,
  create_playlist_group, create_channel, update_playlist_group, update_channel,
}
use dp1_feed_v.Store.Rows.{
  IsRewritten, update_document-IsRewritten, IsErased, delete_document-IsErased,
}
use dp1_feed_v.Store.Writes.{resolve_id}
use dp1_feed_v.Store.Links.{insert_missing_playlists_batch-Links}
use dp1_feed_v.Store.Positions.{IsRebuilt, members-IsRebuilt}

-- An update of a group or channel: the row in its expected generation has the JSONB of the new bytes, its membership
-- is the references in their order, and the playlists that the feed held are all as they were.
pub record IsRelisted (p : Platform) (id : UuidValue) (c : ContainerInput) (expected : Time)
    (t t' : DocTable) (ms ms' : List Member) (playlists playlists' : DocTable) : Type 0 where
  pub rewritten : IsRewritten id (p.jsonb_text c.raw) expected t t'
  pub membership : IsRebuilt id c.playlists ms ms'
  pub playlists_kept :
      (j : UuidValue) (r : Row)
      → find_id j playlists.rows ≡ some r
      → find_id j playlists'.rows ≡ some r
  pub playlists_retired : playlists'.deleted ≡ playlists.deleted

module _ (p : Platform) where
  -- Where `UpdateChannel` on an id returns without an error, the channel's row was in the expected
  -- generation and has the JSONB of the new bytes in a later one, its members are exactly the references in document
  -- order, other channels keep theirs, and no playlist that the feed held is changed or retired.
  pub update_channel-IsRelisted :
      (now : Time) (key : String) (id : UuidValue) (c : ContainerInput) (expected : Time)
      (db db' : Db)
      → p.parse_uuid key ≡ some id
      → update_channel p now key c expected db ≡ ok db'
      → IsRelisted p id c expected db.channels db'.channels db.channel_members db'.channel_members
          db.playlists db'.playlists
  unfolding update_channel
  update_channel-IsRelisted now key id c expected db db' parsed h =
      let (id', res, h1) = bind-eq-ok (resolve_document_id p key db.channels.rows) _ h in
      let (linked, put, h2) =
        bind-eq-ok (insert_missing_playlists_batch p now c.playlists db) _ h1 in
      let (doc, h3) = then-eq-ok (require_document c.raw) _ h2 in
      let (t, upd, fin) =
        bind-eq-ok
          (update_document now id' (p.jsonb_text c.raw) (p.body_slug c.raw) expected
            linked.channels)
          _ h3 in
      let same : id' ≡ id = ok-injective (sym res ∙ resolve_id p key db.channels.rows id parsed) in
      let l = insert_missing_playlists_batch-Links p now c.playlists db linked put in
      let w : IsRewritten id' (p.jsonb_text c.raw) expected db.channels t =
        subst (λ (b : DocTable). IsRewritten id' (p.jsonb_text c.raw) expected b t) l.same_channels
          (update_document-IsRewritten now id' (p.jsonb_text c.raw) (p.body_slug c.raw) expected _ _
            upd) in
      let m : IsRebuilt id' c.playlists db.channel_members
          (members id' 0 c.playlists ++ members_of_others id' linked.channel_members) =
        subst
          (λ (ms : List Member).
            IsRebuilt id' c.playlists ms
              (members id' 0 c.playlists ++ members_of_others id' linked.channel_members))
          l.same_channel_members (members-IsRebuilt id' c.playlists linked.channel_members) in
      subst
        (λ (j : UuidValue).
          IsRelisted p j c expected db.channels db'.channels db.channel_members db'.channel_members
            db.playlists db'.playlists)
        same
        (subst
          (λ (d : Db).
            IsRelisted p id' c expected db.channels d.channels db.channel_members d.channel_members
              db.playlists d.playlists)
          (ok-injective fin)
          (record {
            rewritten = w;
            membership = m;
            playlists_kept = l.kept;
            playlists_retired = l.same_tombstones;
          }))

  -- Where `UpdatePlaylistGroup` on an id returns without an error, the group's row was in the expected
  -- generation and has the JSONB of the new bytes in a later one, its members are exactly the references in document
  -- order, other groups keep theirs, and no playlist that the feed held is changed or retired.
  pub update_playlist_group-IsRelisted :
      (now : Time) (key : String) (id : UuidValue) (c : ContainerInput) (expected : Time)
      (db db' : Db)
      → p.parse_uuid key ≡ some id
      → update_playlist_group p now key c expected db ≡ ok db'
      → IsRelisted p id c expected db.groups db'.groups db.group_members db'.group_members
          db.playlists db'.playlists
  unfolding update_playlist_group
  update_playlist_group-IsRelisted now key id c expected db db' parsed h =
      let (id', res, h1) = bind-eq-ok (resolve_document_id p key db.groups.rows) _ h in
      let (linked, put, h2) =
        bind-eq-ok (insert_missing_playlists_batch p now c.playlists db) _ h1 in
      let (doc, h3) = then-eq-ok (require_document c.raw) _ h2 in
      let (t, upd, fin) =
        bind-eq-ok
          (update_document now id' (p.jsonb_text c.raw) (p.body_slug c.raw) expected linked.groups)
          _ h3 in
      let same : id' ≡ id = ok-injective (sym res ∙ resolve_id p key db.groups.rows id parsed) in
      let l = insert_missing_playlists_batch-Links p now c.playlists db linked put in
      let w : IsRewritten id' (p.jsonb_text c.raw) expected db.groups t =
        subst (λ (b : DocTable). IsRewritten id' (p.jsonb_text c.raw) expected b t) l.same_groups
          (update_document-IsRewritten now id' (p.jsonb_text c.raw) (p.body_slug c.raw) expected _ _
            upd) in
      let m : IsRebuilt id' c.playlists db.group_members
          (members id' 0 c.playlists ++ members_of_others id' linked.group_members) =
        subst
          (λ (ms : List Member).
            IsRebuilt id' c.playlists ms
              (members id' 0 c.playlists ++ members_of_others id' linked.group_members))
          l.same_group_members (members-IsRebuilt id' c.playlists linked.group_members) in
      subst
        (λ (j : UuidValue).
          IsRelisted p j c expected db.groups db'.groups db.group_members db'.group_members
            db.playlists db'.playlists)
        same
        (subst
          (λ (d : Db).
            IsRelisted p id' c expected db.groups d.groups db.group_members d.group_members
              db.playlists d.playlists)
          (ok-injective fin)
          (record {
            rewritten = w;
            membership = m;
            playlists_kept = l.kept;
            playlists_retired = l.same_tombstones;
          }))

  -- The playlists that a transaction on a group or channel leaves are those of its linking step.
  abbrev pub LinksOnly : Time → List IngestedPlaylist → Db → Db → Type 0
  LinksOnly now qs db db' =
      (linked : Db) × (insert_missing_playlists_batch p now qs db ≡ ok linked)
      × (linked.playlists ≡ db'.playlists)

  pub create_playlist_group-LinksOnly :
      (now : Time) (c : ContainerInput) (db db' : Db)
      → create_playlist_group p now c db ≡ ok db'
      → LinksOnly now c.playlists db db'
  unfolding create_playlist_group
  create_playlist_group-LinksOnly now c db db' h =
      let (alive, h1) = then-eq-ok (require_not_tombstoned db.groups c.id) _ h in
      let (linked, put, h2) =
        bind-eq-ok (insert_missing_playlists_batch p now c.playlists db) _ h1 in
      let (doc, h3) = then-eq-ok (require_document c.raw) _ h2 in
      let (t, ins, fin) = bind-eq-ok (insert_row linked.groups (container_row p now c)) _ h3 in
      (linked, put, ap (λ (d : Db). d.playlists) (ok-injective fin))

  pub create_channel-LinksOnly :
      (now : Time) (c : ContainerInput) (db db' : Db)
      → create_channel p now c db ≡ ok db'
      → LinksOnly now c.playlists db db'
  unfolding create_channel
  create_channel-LinksOnly now c db db' h =
      let (alive, h1) = then-eq-ok (require_not_tombstoned db.channels c.id) _ h in
      let (linked, put, h2) =
        bind-eq-ok (insert_missing_playlists_batch p now c.playlists db) _ h1 in
      let (doc, h3) = then-eq-ok (require_document c.raw) _ h2 in
      let (t, ins, fin) = bind-eq-ok (insert_row linked.channels (container_row p now c)) _ h3 in
      (linked, put, ap (λ (d : Db). d.playlists) (ok-injective fin))

  pub update_playlist_group-LinksOnly :
      (now : Time) (key : String) (c : ContainerInput) (expected : Time) (db db' : Db)
      → update_playlist_group p now key c expected db ≡ ok db'
      → LinksOnly now c.playlists db db'
  unfolding update_playlist_group
  update_playlist_group-LinksOnly now key c expected db db' h =
      let (id, res, h1) = bind-eq-ok (resolve_document_id p key db.groups.rows) _ h in
      let (linked, put, h2) =
        bind-eq-ok (insert_missing_playlists_batch p now c.playlists db) _ h1 in
      let (doc, h3) = then-eq-ok (require_document c.raw) _ h2 in
      let (t, upd, fin) =
        bind-eq-ok
          (update_document now id (p.jsonb_text c.raw) (p.body_slug c.raw) expected linked.groups) _
          h3 in
      (linked, put, ap (λ (d : Db). d.playlists) (ok-injective fin))

  pub update_channel-LinksOnly :
      (now : Time) (key : String) (c : ContainerInput) (expected : Time) (db db' : Db)
      → update_channel p now key c expected db ≡ ok db'
      → LinksOnly now c.playlists db db'
  unfolding update_channel
  update_channel-LinksOnly now key c expected db db' h =
      let (id, res, h1) = bind-eq-ok (resolve_document_id p key db.channels.rows) _ h in
      let (linked, put, h2) =
        bind-eq-ok (insert_missing_playlists_batch p now c.playlists db) _ h1 in
      let (doc, h3) = then-eq-ok (require_document c.raw) _ h2 in
      let (t, upd, fin) =
        bind-eq-ok
          (update_document now id (p.jsonb_text c.raw) (p.body_slug c.raw) expected linked.channels)
          _ h3 in
      (linked, put, ap (λ (d : Db). d.playlists) (ok-injective fin))

  pub delete_channel-IsErased :
      (key : String) (id : UuidValue) (expected : Time) (db db' : Db)
      → p.parse_uuid key ≡ some id
      → delete_channel p key expected db ≡ ok db'
      → IsErased id expected db.channels db'.channels
  unfolding delete_channel
  delete_channel-IsErased key id expected db db' parsed h =
      let (id', res, h1) = bind-eq-ok (resolve_document_id p key db.channels.rows) _ h in
      let (t, del, fin) = bind-eq-ok (delete_document id' expected db.channels) _ h1 in
      let same : id' ≡ id = ok-injective (sym res ∙ resolve_id p key db.channels.rows id parsed) in
      subst (λ (j : UuidValue). IsErased j expected db.channels db'.channels) same
        (subst (λ (d : Db). IsErased id' expected db.channels d.channels) (ok-injective fin)
          (delete_document-IsErased id' expected _ _ del))

  pub delete_playlist_group-IsErased :
      (key : String) (id : UuidValue) (expected : Time) (db db' : Db)
      → p.parse_uuid key ≡ some id
      → delete_playlist_group p key expected db ≡ ok db'
      → IsErased id expected db.groups db'.groups
  unfolding delete_playlist_group
  delete_playlist_group-IsErased key id expected db db' parsed h =
      let (id', res, h1) = bind-eq-ok (resolve_document_id p key db.groups.rows) _ h in
      let (t, del, fin) = bind-eq-ok (delete_document id' expected db.groups) _ h1 in
      let same : id' ≡ id = ok-injective (sym res ∙ resolve_id p key db.groups.rows id parsed) in
      subst (λ (j : UuidValue). IsErased j expected db.groups db'.groups) same
        (subst (λ (d : Db). IsErased id' expected db.groups d.groups) (ok-injective fin)
          (delete_document-IsErased id' expected _ _ del))
