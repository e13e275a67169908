-- ===== src/Store/Writes.antt =====
-- The transactions on playlists, taken apart: what each found and what it left.
use dp1_feed_v.Shared.{
  String, ◌≡◌, sym, ap, ◌∙◌, refl, Bool, not, filter, nat_eq, arith, ◌&&◌, some, List, [], ◌∷◌,
  if◌then◌else◌, ok, subst, bind-eq-ok, then-eq-ok, ok-injective,
}
use dp1_feed_v.Errors.{not_found}
use dp1_feed_v.Models.{Bytes, UuidValue, Time, Row}
use dp1_feed_v.Platform.{Platform}
use dp1_feed_v.Auth.{or_error}
use dp1_feed_v.Store.Tables.{
  DocTable, find_id, require_document, insert_document, update_document, delete_document,
}
use dp1_feed_v.Store.Playlists.{
  Db, ItemRow, Member, Source, items_elsewhere, members_elsewhere, sources_elsewhere,
  channels_listing, create_playlist, resolve_document_id, update_playlist, delete_playlist,
  item_rows,
}
use dp1_feed_v.Store.Rows.{
  IsRewritten, update_document-IsRewritten, IsErased, delete_document-IsErased,
}

-- What the delete of a playlist leaves of the other tables: the groups and channels as they were, and of the
-- rows that refer to a playlist exactly those that refer to another one.
pub record IsCascaded (id : UuidValue) (db db' : Db) : Type 0 where
  pub groups : db'.groups ≡ db.groups
  pub channels : db'.channels ≡ db.channels
  pub items : db'.items ≡ filter (λ (r : ItemRow). not (nat_eq r.playlist_id id)) db.items
  pub group_members :
      db'.group_members ≡ filter (λ (m : Member). not (nat_eq m.playlist_id id)) db.group_members
  pub channel_members :
      db'.channel_members
      ≡ filter (λ (m : Member). not (nat_eq m.playlist_id id)) db.channel_members
  pub sources : db'.sources ≡ filter (λ (s : Source). not (nat_eq s.playlist_id id)) db.sources

items_elsewhere-filter :
    (id : UuidValue) (rows : List ItemRow)
    → items_elsewhere id rows ≡ filter (λ (r : ItemRow). not (nat_eq r.playlist_id id)) rows
unfolding items_elsewhere
items_elsewhere-filter id [] = refl
items_elsewhere-filter id (r ∷ rows) = ground (arith, items_elsewhere-filter id rows)

members_elsewhere-filter :
    (id : UuidValue) (ms : List Member)
    → members_elsewhere id ms ≡ filter (λ (m : Member). not (nat_eq m.playlist_id id)) ms
unfolding members_elsewhere
members_elsewhere-filter id [] = refl
members_elsewhere-filter id (m ∷ ms) = ground (arith, members_elsewhere-filter id ms)

sources_elsewhere-filter :
    (id : UuidValue) (ss : List Source)
    → sources_elsewhere id ss ≡ filter (λ (s : Source). not (nat_eq s.playlist_id id)) ss
unfolding sources_elsewhere
sources_elsewhere-filter id [] = refl
sources_elsewhere-filter id (s ∷ ss) = ground (arith, sources_elsewhere-filter id ss)

abbrev cascaded : UuidValue → DocTable → Db → Db
cascaded id t db = record db {
  playlists = t;
  items = items_elsewhere id db.items;
  group_members = members_elsewhere id db.group_members;
  channel_members = members_elsewhere id db.channel_members;
  sources = sources_elsewhere id db.sources;
}

cascaded-IsCascaded :
    (id : UuidValue) (t : DocTable) (db : Db) → IsCascaded id db (cascaded id t db)
cascaded-IsCascaded id t db = record {
  groups = refl;
  channels = refl;
  items = items_elsewhere-filter id db.items;
  group_members = members_elsewhere-filter id db.group_members;
  channel_members = members_elsewhere-filter id db.channel_members;
  sources = sources_elsewhere-filter id db.sources;
}

module _ (p : Platform) where
  pub create_playlist_lem :
      (now : Time) (id : UuidValue) (slug : String) (raw : Bytes) (db db' : Db)
      → create_playlist p now id slug raw db ≡ ok db'
      → insert_document db.playlists (record {
        id = id;
        slug = slug;
        raw = p.jsonb_text raw;
        created_at = now;
        updated_at = now;
      })
        ≡ ok db'.playlists
  unfolding create_playlist
  create_playlist_lem now id slug raw db db' h =
      let (doc, h1) = then-eq-ok (require_document raw) _ h in
      let (t, put, h2) =
        bind-eq-ok
          (insert_document db.playlists (record {
            id = id;
            slug = slug;
            raw = p.jsonb_text raw;
            created_at = now;
            updated_at = now;
          }))
          _ h1 in
      let (rows, made, out) =
        bind-eq-ok (or_error [] (item_rows p id now 0 [] (p.body_item_ids raw))) _ h2 in
      put ∙ ap (λ (d : Db). ok d.playlists) (ok-injective out)

  pub update_playlist_lem :
      (now : Time) (key : String) (raw : Bytes) (expected : Time) (report read : Bool) (db db' : Db)
      (listing : List UuidValue)
      → update_playlist p now key raw expected report read db ≡ ok (db', listing)
      → (id : UuidValue) × (resolve_document_id p key db.playlists.rows ≡ ok id)
        × (update_document now id (p.jsonb_text raw) (p.body_slug raw) expected db.playlists
            ≡ ok db'.playlists)
        × (listing ≡ (if report && read then channels_listing id db.channel_members else []))
  unfolding update_playlist
  update_playlist_lem now key raw expected report read db db' listing h =
      let (doc, h1) = then-eq-ok (require_document raw) _ h in
      let (id, res, h2) = bind-eq-ok (resolve_document_id p key db.playlists.rows) _ h1 in
      let (before, fnd, h3) =
        bind-eq-ok (or_error (not_found ∷ []) (find_id id db.playlists.rows)) _ h2 in
      let (t, upd, h4) =
        bind-eq-ok
          (update_document now id (p.jsonb_text raw) (p.body_slug raw) expected db.playlists) _
          h3 in
      let (rows, made, out) =
        bind-eq-ok (or_error [] (item_rows p id before.created_at 0 [] (p.body_item_ids raw))) _
          h4 in
      (
        id,
        res,
        upd ∙ ap (λ (d : Db × List UuidValue). ok d.0.playlists) (ok-injective out),
        sym (ap (λ (d : Db × List UuidValue). d.1) (ok-injective out)),
      )

  pub delete_playlist_lem :
      (key : String) (expected : Time) (report read : Bool) (db db' : Db) (listing : List UuidValue)
      → delete_playlist p key expected report read db ≡ ok (db', listing)
      → (id : UuidValue) × (resolve_document_id p key db.playlists.rows ≡ ok id)
        × (delete_document id expected db.playlists ≡ ok db'.playlists)
        × (listing ≡ (if report && read then channels_listing id db.channel_members else []))
  unfolding delete_playlist
  delete_playlist_lem key expected report read db db' listing h =
      let (id, res, h1) = bind-eq-ok (resolve_document_id p key db.playlists.rows) _ h in
      let (t, del, out) = bind-eq-ok (delete_document id expected db.playlists) _ h1 in
      (
        id,
        res,
        del ∙ ap (λ (d : Db × List UuidValue). ok d.0.playlists) (ok-injective out),
        sym (ap (λ (d : Db × List UuidValue). d.1) (ok-injective out)),
      )

  pub resolve_id :
      (key : String) (rows : List Row) (id : UuidValue)
      → p.parse_uuid key ≡ some id
      → resolve_document_id p key rows ≡ ok id
  unfolding resolve_document_id
  resolve_id key rows id h = rw (h, resolve_document_id)

  -- Where `UpdatePlaylist` on an id returns without an error, the stored row was in the generation that
  -- the caller expected; the row then has the JSONB of the new bytes in a strictly later generation and its old
  -- creation time, and every other playlist row and every tombstone is as it was.
  pub update_playlist_generation :
      (now : Time) (key : String) (id : UuidValue) (raw : Bytes) (expected : Time)
      (report read : Bool) (db db' : Db) (listing : List UuidValue)
      → p.parse_uuid key ≡ some id
      → update_playlist p now key raw expected report read db ≡ ok (db', listing)
      → IsRewritten id (p.jsonb_text raw) expected db.playlists db'.playlists
  update_playlist_generation now key id raw expected report read db db' listing parsed h =
      let (id', res, upd, lst) =
        update_playlist_lem now key raw expected report read db db' listing h in
      let same : id' ≡ id = ok-injective (sym res ∙ resolve_id key db.playlists.rows id parsed) in
      subst (λ j. IsRewritten j (p.jsonb_text raw) expected db.playlists db'.playlists) same
        (update_document-IsRewritten now id' (p.jsonb_text raw) (p.body_slug raw) expected _ _ upd)

  pub delete_playlist-IsCascaded :
      (key : String) (id : UuidValue) (expected : Time) (report read : Bool) (db db' : Db)
      (listing : List UuidValue)
      → p.parse_uuid key ≡ some id
      → delete_playlist p key expected report read db ≡ ok (db', listing)
      → IsCascaded id db db'
  unfolding delete_playlist
  delete_playlist-IsCascaded key id expected report read db db' listing parsed h =
      let (id', res, h1) = bind-eq-ok (resolve_document_id p key db.playlists.rows) _ h in
      let (t, del, out) = bind-eq-ok (delete_document id' expected db.playlists) _ h1 in
      let same : id' ≡ id = ok-injective (sym res ∙ resolve_id key db.playlists.rows id parsed) in
      subst (λ (j : UuidValue). IsCascaded j db db') same
        (subst (λ (d : Db × List UuidValue). IsCascaded id' db d.0) (ok-injective out)
          (cascaded-IsCascaded id' t db))

  pub delete_playlist-IsErased :
      (key : String) (id : UuidValue) (expected : Time) (report read : Bool) (db db' : Db)
      (listing : List UuidValue)
      → p.parse_uuid key ≡ some id
      → delete_playlist p key expected report read db ≡ ok (db', listing)
      → IsErased id expected db.playlists db'.playlists
  delete_playlist-IsErased key id expected report read db db' listing parsed h =
      let (id', res, del, lst) = delete_playlist_lem key expected report read db db' listing h in
      let same : id' ≡ id = ok-injective (sym res ∙ resolve_id key db.playlists.rows id parsed) in
      subst (λ j. IsErased j expected db.playlists db'.playlists) same
        (delete_document-IsErased id' expected _ _ del)
