-- ===== src/Store/Creations.antt =====
-- What a create of a playlist, group or channel has found and left.
use dp1_feed_v.Shared.{
  String, ◌≡◌, ◌≢◌, refl, subst, false, not, Option, none, some, List, ◌∷◌, nat_eq_iff, arith, ok,
  require, bind-eq-ok, then-eq-ok, require-eq-ok, ok-injective,
}
use dp1_feed_v.Models.{Bytes, UuidValue, Time, Row}
use dp1_feed_v.Platform.{Platform}
use dp1_feed_v.Auth.Laws.{not-true}
use dp1_feed_v.Store.Tables.{
  DocTable, holds, find_id, find_slug, is_some, already, insert_row, insert_document,
  require_not_tombstoned, require_document,
}
use dp1_feed_v.Store.Playlists.{Db, create_playlist}
use dp1_feed_v.Store.Ingest.{insert_missing_playlists_batch}
use dp1_feed_v.Store.Containers.{
  ContainerInput, container_row, create_playlist_group, create_channel,
}
use dp1_feed_v.Store.Writes.{create_playlist_lem}
use dp1_feed_v.Store.Links.{insert_missing_playlists_batch-Links}

-- A create under an id and slug: both were free, the id was not retired, and the table now has the one new
-- row besides the old ones.
pub record IsCreated (id : UuidValue) (slug : String) (raw : Bytes) (t t' : DocTable) : Type 0 where
  pub unretired : holds id t.deleted ≡ false
  pub id_free : find_id id t.rows ≡ none
  pub slug_free : find_slug slug t.rows ≡ none
  pub current : Row
  pub stored : find_id id t'.rows ≡ some current
  pub bytes : current.raw ≡ raw
  pub routed : current.slug ≡ slug
  pub others : (j : UuidValue) → id ≢ j → find_id j t'.rows ≡ find_id j t.rows
  pub same_tombstones : t'.deleted ≡ t.deleted

is_some-false {ℓ} : {A : Type ℓ} (o : Option A) → is_some o ≡ false → o ≡ none
is_some-false none h = refl
is_some-false (some a) h = cc

find_id-cons_self : (r : Row) (rows : List Row) → find_id r.id (r ∷ rows) ≡ some r
unfolding find_id
find_id-cons_self r rows = ground (arith, nat_eq_iff r.id r.id)

find_id-cons_ne :
    (r : Row) (rows : List Row) (j : UuidValue) → r.id ≢ j → find_id j (r ∷ rows) ≡ find_id j rows
unfolding find_id
find_id-cons_ne r rows j n = ground (arith, nat_eq_iff r.id j)

pub insert_row-IsCreated :
    (t t' : DocTable) (r : Row)
    → require_not_tombstoned t r.id ≡ ok tt
    → insert_row t r ≡ ok t'
    → IsCreated r.id r.slug r.raw t t'
unfolding insert_row require_not_tombstoned
insert_row-IsCreated t t' r alive h =
    let (i, h1) = then-eq-ok (require (not (is_some (find_id r.id t.rows))) already) _ h in
    let (s, fin) = then-eq-ok (require (not (is_some (find_slug r.slug t.rows))) already) _ h1 in
    subst (IsCreated r.id r.slug r.raw t) (ok-injective fin) (record {
      unretired = not-true _ (require-eq-ok _ _ alive);
      id_free = is_some-false _ (not-true _ (require-eq-ok _ _ i));
      slug_free = is_some-false _ (not-true _ (require-eq-ok _ _ s));
      current = r;
      stored = find_id-cons_self r t.rows;
      bytes = refl;
      routed = refl;
      others = λ j n. find_id-cons_ne r t.rows j n;
      same_tombstones = refl;
    })

module _ (p : Platform) where
  pub create_playlist-IsCreated :
      (now : Time) (id : UuidValue) (slug : String) (raw : Bytes) (db db' : Db)
      → create_playlist p now id slug raw db ≡ ok db'
      → IsCreated id slug (p.jsonb_text raw) db.playlists db'.playlists
  unfolding insert_document
  create_playlist-IsCreated now id slug raw db db' h =
      let r : Row = record {
        id = id;
        slug = slug;
        raw = p.jsonb_text raw;
        created_at = now;
        updated_at = now;
      } in
      let (alive, put) =
        then-eq-ok (require_not_tombstoned db.playlists id) _
          (create_playlist_lem p now id slug raw db db' h) in
      insert_row-IsCreated db.playlists db'.playlists r alive put

  pub create_channel-IsCreated :
      (now : Time) (c : ContainerInput) (db db' : Db)
      → create_channel p now c db ≡ ok db'
      → IsCreated c.id c.slug (p.jsonb_text c.raw) db.channels db'.channels
  unfolding create_channel
  create_channel-IsCreated now c db db' h =
      let (alive, h1) = then-eq-ok (require_not_tombstoned db.channels c.id) _ h in
      let (linked, put, h2) =
        bind-eq-ok (insert_missing_playlists_batch p now c.playlists db) _ h1 in
      let (doc, h3) = then-eq-ok (require_document c.raw) _ h2 in
      let (t, ins, fin) = bind-eq-ok (insert_row linked.channels (container_row p now c)) _ h3 in
      let l = insert_missing_playlists_batch-Links p now c.playlists db linked put in
      let ins' : insert_row db.channels (container_row p now c) ≡ ok t =
        subst (λ (b : DocTable). insert_row b (container_row p now c) ≡ ok t) l.same_channels ins in
      subst (λ (d : Db). IsCreated c.id c.slug (p.jsonb_text c.raw) db.channels d.channels)
        (ok-injective fin) (insert_row-IsCreated db.channels t (container_row p now c) alive ins')

  pub create_playlist_group-IsCreated :
      (now : Time) (c : ContainerInput) (db db' : Db)
      → create_playlist_group p now c db ≡ ok db'
      → IsCreated c.id c.slug (p.jsonb_text c.raw) db.groups db'.groups
  unfolding create_playlist_group
  create_playlist_group-IsCreated now c db db' h =
      let (alive, h1) = then-eq-ok (require_not_tombstoned db.groups c.id) _ h in
      let (linked, put, h2) =
        bind-eq-ok (insert_missing_playlists_batch p now c.playlists db) _ h1 in
      let (doc, h3) = then-eq-ok (require_document c.raw) _ h2 in
      let (t, ins, fin) = bind-eq-ok (insert_row linked.groups (container_row p now c)) _ h3 in
      let l = insert_missing_playlists_batch-Links p now c.playlists db linked put in
      let ins' : insert_row db.groups (container_row p now c) ≡ ok t =
        subst (λ (b : DocTable). insert_row b (container_row p now c) ≡ ok t) l.same_groups ins in
      subst (λ (d : Db). IsCreated c.id c.slug (p.jsonb_text c.raw) db.groups d.groups)
        (ok-injective fin) (insert_row-IsCreated db.groups t (container_row p now c) alive ins')
