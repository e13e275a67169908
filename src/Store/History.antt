-- ===== src/Store/History.antt =====
-- Sequences of committed playlist transactions, and what none of them can undo.
use dp1_feed_v.Shared.{
  ℕ, String, ◌≡◌, sym, ◌∙◌, Bool, true, none, List, [], ◌∷◌, arith, ok, err, ok-injective, subst,
}
use dp1_feed_v.Errors.{document_deleted}
use dp1_feed_v.Models.{Bytes, UuidValue, Time, IngestedPlaylist}
use dp1_feed_v.Platform.{Platform}
use dp1_feed_v.Store.Tables.{DocTable, holds, find_id, insert_document}
use dp1_feed_v.Store.Playlists.{
  Db, create_playlist, update_playlist, delete_playlist, resolve_document_id,
}
use dp1_feed_v.Store.Rows.{
  IsRetired, insert_document_lem, update_document_lem, delete_document_lem,
  insert_document-IsRetired, update_document-IsRetired, delete_document-IsRetired,
  delete_document-IsErased,
}
use dp1_feed_v.Store.Containers.{
  ContainerInput, create_playlist_group, update_playlist_group, create_channel, update_channel,
}
use dp1_feed_v.Store.Links.{
  insert_missing_playlists_batch-IsRetired, insert_missing_playlists_batch-Links,
}
use dp1_feed_v.Store.Updates.{
  LinksOnly, create_playlist_group-LinksOnly, update_playlist_group-LinksOnly,
  create_channel-LinksOnly, update_channel-LinksOnly,
}
use dp1_feed_v.Store.Writes.{create_playlist_lem, update_playlist_lem, delete_playlist_lem}

module _ (p : Platform) where
  -- One committed transaction that can add, change or remove playlists.
  pub data Commit (db db' : Db) : Type 0 where
    created :
        (now : Time) (id : UuidValue) (slug : String) (raw : Bytes)
        → create_playlist p now id slug raw db ≡ ok db'
        → Commit db db'
    replaced :
        (now : Time) (key : String) (raw : Bytes) (expected : Time) (report read : Bool)
        (listing : List UuidValue)
        → update_playlist p now key raw expected report read db ≡ ok (db', listing)
        → Commit db db'
    removed :
        (key : String) (expected : Time) (report read : Bool) (listing : List UuidValue)
        → delete_playlist p key expected report read db ≡ ok (db', listing)
        → Commit db db'
    grouped :
        (now : Time) (c : ContainerInput)
        → create_playlist_group p now c db ≡ ok db'
        → Commit db db'
    regrouped :
        (now : Time) (key : String) (c : ContainerInput) (expected : Time)
        → update_playlist_group p now key c expected db ≡ ok db'
        → Commit db db'
    broadcast :
        (now : Time) (c : ContainerInput) → create_channel p now c db ≡ ok db' → Commit db db'
    rebroadcast :
        (now : Time) (key : String) (c : ContainerInput) (expected : Time)
        → update_channel p now key c expected db ≡ ok db'
        → Commit db db'

  pub data Later (db : Db) : Db → Type 0 where
    now : Later db db
    after : {db1 db2 : Db} → Later db db1 → Commit db1 db2 → Later db db2

  Links-IsRetired :
      (n : Time) (qs : List IngestedPlaylist) (db db' : Db)
      → LinksOnly p n qs db db'
      → IsRetired db.playlists
      → IsRetired db'.playlists
  Links-IsRetired n qs db db' (linked, put, same) v =
      subst IsRetired same (insert_missing_playlists_batch-IsRetired p n qs db linked put v)

  Links-holds :
      (n : Time) (qs : List IngestedPlaylist) (db db' : Db) (id : UuidValue)
      → LinksOnly p n qs db db'
      → holds id db.playlists.deleted ≡ true
      → holds id db'.playlists.deleted ≡ true
  Links-holds n qs db db' id (linked, put, same) v =
      subst (λ (t : DocTable). holds id t.deleted ≡ true) same
        (rw (insert_missing_playlists_batch-Links p n qs db linked put).same_tombstones v)

  Commit-IsRetired :
      (db db' : Db) → Commit db db' → IsRetired db.playlists → IsRetired db'.playlists
  Commit-IsRetired db db' (created n id slug raw h) v =
      insert_document-IsRetired _ _ _ v (create_playlist_lem p n id slug raw db db' h)
  Commit-IsRetired db db' (replaced n key raw expected report read listing h) v =
      let (id, res, upd, lst) =
        update_playlist_lem p n key raw expected report read db db' listing h in
      update_document-IsRetired n id (p.jsonb_text raw) (p.body_slug raw) expected _ _ v upd
  Commit-IsRetired db db' (removed key expected report read listing h) v =
      let (id, res, del, lst) = delete_playlist_lem p key expected report read db db' listing h in
      delete_document-IsRetired id expected _ _ v del
  Commit-IsRetired db db' (grouped n c h) w =
      Links-IsRetired n c.playlists db db' (create_playlist_group-LinksOnly p n c db db' h) w
  Commit-IsRetired db db' (regrouped n key c e h) w =
      Links-IsRetired n c.playlists db db' (update_playlist_group-LinksOnly p n key c e db db' h) w
  Commit-IsRetired db db' (broadcast n c h) w =
      Links-IsRetired n c.playlists db db' (create_channel-LinksOnly p n c db db' h) w
  Commit-IsRetired db db' (rebroadcast n key c e h) w =
      Links-IsRetired n c.playlists db db' (update_channel-LinksOnly p n key c e db db' h) w

  Commit-holds :
      (db db' : Db) (id : UuidValue)
      → Commit db db'
      → holds id db.playlists.deleted ≡ true
      → holds id db'.playlists.deleted ≡ true
  unfolding holds
  Commit-holds db db' id (created n i slug raw h) v =
      let (live, free, out) =
        insert_document_lem _ _ _ (create_playlist_lem p n i slug raw db db' h) in
      rw out v
  Commit-holds db db' id (replaced n key raw expected report read listing h) v =
      let (i, res, upd, lst) =
        update_playlist_lem p n key raw expected report read db db' listing h in
      let (r, found, same, out) =
        update_document_lem n i (p.jsonb_text raw) (p.body_slug raw) expected _ _ upd in
      rw out v
  Commit-holds db db' id (removed key expected report read listing h) v =
      let (i, res, del, lst) = delete_playlist_lem p key expected report read db db' listing h in
      let (r, found, same, out) = delete_document_lem i expected _ _ del in rw out (ground arith)
  Commit-holds db db' id (grouped n c h) w =
      Links-holds n c.playlists db db' id (create_playlist_group-LinksOnly p n c db db' h) w
  Commit-holds db db' id (regrouped n key c e h) w =
      Links-holds n c.playlists db db' id (update_playlist_group-LinksOnly p n key c e db db' h) w
  Commit-holds db db' id (broadcast n c h) w =
      Links-holds n c.playlists db db' id (create_channel-LinksOnly p n c db db' h) w
  Commit-holds db db' id (rebroadcast n key c e h) w =
      Links-holds n c.playlists db db' id (update_channel-LinksOnly p n key c e db db' h) w

  pub Later-IsRetired :
      (db db' : Db) → Later db db' → IsRetired db.playlists → IsRetired db'.playlists
  Later-IsRetired db db' now v = v
  Later-IsRetired db db' (after {db1} {db2} l c) v =
      Commit-IsRetired db1 db2 c (Later-IsRetired db db1 l v)

  Later-holds :
      (db db' : Db) (id : UuidValue)
      → Later db db'
      → holds id db.playlists.deleted ≡ true
      → holds id db'.playlists.deleted ≡ true
  Later-holds db db' id now v = v
  Later-holds db db' id (after {db1} {db2} l c) v =
      Commit-holds db1 db2 id c (Later-holds db db1 id l v)

  create_retired :
      (now : Time) (id : UuidValue) (slug : String) (b : ℕ) (raw : Bytes) (db : Db)
      → holds id db.playlists.deleted ≡ true
      → create_playlist p now id slug (b ∷ raw) db ≡ err (document_deleted ∷ [])
  unfolding create_playlist insert_document
  create_retired n id slug b raw db h = rw h

  -- Once a playlist has been deleted, no sequence of committed transactions on playlists, groups
  -- and channels makes its id live
  -- again, and every later create under that id is refused as deleted.
  pub delete_playlist_final :
      (db db1 db2 : Db) (key : String) (id : UuidValue) (expected : Time) (report read : Bool)
      (listing : List UuidValue)
      → IsRetired db.playlists
      → resolve_document_id p key db.playlists.rows ≡ ok id
      → delete_playlist p key expected report read db ≡ ok (db1, listing)
      → Later db1 db2
      → (find_id id db2.playlists.rows ≡ none)
        × ((n : Time) (slug : String) (b : ℕ) (raw : Bytes)
            → create_playlist p n id slug (b ∷ raw) db2 ≡ err (document_deleted ∷ []))
  unfolding holds
  delete_playlist_final db db1 db2 key id expected report read listing v res h l =
      let (id', res', del, lst) = delete_playlist_lem p key expected report read db db1 listing h in
      let same : id' ≡ id = ok-injective (sym res' ∙ res) in
      let kept =
        Later-holds db1 db2 id l
          (rw (← same) (delete_document-IsErased id' expected _ _ del).tombstone) in
      let stays = delete_document-IsRetired id' expected _ _ v del in
      (
        (Later-IsRetired db1 db2 l stays).gone id kept,
        λ n slug b raw. create_retired n id slug b raw db2 kept,
      )
