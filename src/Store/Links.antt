-- ===== src/Store/Links.antt =====
-- What linking playlists leaves alone: stored playlists, tombstones, groups, channels and memberships.
use dp1_feed_v.Shared.{
  ◌≡◌, refl, ◌∙◌, subst, true, false, not, none, some, List, [], ◌∷◌, ◌++◌, nat_eq, nat_eq_iff,
  Bool-cases, Option-cases, inl, inr, arith, ok, require, bind-eq-ok, then-eq-ok, ok-injective,
  require-eq-ok, any,
}
use dp1_feed_v.Models.{UuidValue, Time, Row, IngestedPlaylist}
use dp1_feed_v.Platform.{Platform}
use dp1_feed_v.Auth.{or_error}
use dp1_feed_v.Store.Tables.{holds, find_id, find_slug, is_some, already}
use dp1_feed_v.Store.Playlists.{Db, item_rows}
use dp1_feed_v.Store.Ingest.{
  unique_playlist_params, require_none_tombstoned, link_row, item_failure, insert_missing_rows,
  insert_missing_playlists_batch,
}
use dp1_feed_v.Auth.Laws.{not-true}
use dp1_feed_v.Store.Rows.{IsRetired}

-- No stored playlist is touched, none is retired, and groups, channels and memberships are as they were.
pub record Links (db db' : Db) : Type 0 where
  pub kept :
      (j : UuidValue) (r : Row)
      → find_id j db.playlists.rows ≡ some r
      → find_id j db'.playlists.rows ≡ some r
  pub same_tombstones : db'.playlists.deleted ≡ db.playlists.deleted
  pub same_groups : db'.groups ≡ db.groups
  pub same_channels : db'.channels ≡ db.channels
  pub same_group_members : db'.group_members ≡ db.group_members
  pub same_channel_members : db'.channel_members ≡ db.channel_members

Links-refl : (db : Db) → Links db db
Links-refl db = record {
  kept = λ j r h. h;
  same_tombstones = refl;
  same_groups = refl;
  same_channels = refl;
  same_group_members = refl;
  same_channel_members = refl;
}

pub Links-trans : (a b c : Db) → Links a b → Links b c → Links a c
Links-trans a b c l m = record {
  kept = λ j r h. m.kept j r (l.kept j r h);
  same_tombstones = m.same_tombstones ∙ l.same_tombstones;
  same_groups = m.same_groups ∙ l.same_groups;
  same_channels = m.same_channels ∙ l.same_channels;
  same_group_members = m.same_group_members ∙ l.same_group_members;
  same_channel_members = m.same_channel_members ∙ l.same_channel_members;
}

find_id-cons_new :
    (new : Row) (rows : List Row) (j : UuidValue) (r : Row)
    → find_id new.id rows ≡ none
    → find_id j rows ≡ some r
    → find_id j (new ∷ rows) ≡ some r
unfolding find_id
find_id-cons_new new rows j r free h = elim (Bool-cases (nat_eq new.id j)) [
  | inl e ↦ absurd (ground (arith, (nat_eq_iff new.id j).0 e))
  | inr n ↦ rw n h
]

module _ (p : Platform) (now : Time) where
  insert_missing_rows-Links :
      (qs : List IngestedPlaylist) (db db' : Db)
      → insert_missing_rows p now qs db ≡ ok db'
      → Links db db'
  unfolding insert_missing_rows
  insert_missing_rows-Links [] db db' h = subst (Links db) (ok-injective h) (Links-refl db)
  insert_missing_rows-Links (q ∷ qs) db db' h =
      elim (Option-cases (find_id q.id db.playlists.rows)) [
        | inr (r, found) ↦
            insert_missing_rows-Links qs db db' (rw (found, insert_missing_rows) at h)
        | inl free ↦
            let h0 = rw (free, insert_missing_rows) at h in
            let (slug_free, h1) =
              then-eq-ok (require (not (is_some (find_slug q.slug db.playlists.rows))) already) _
                h0 in
            let (rows, made, h2) =
              bind-eq-ok
                (or_error (item_failure p [] (p.body_item_ids q.raw))
                  (item_rows p q.id now 0 [] (p.body_item_ids q.raw)))
                _ h1 in
            let db1 : Db = record db {
              playlists = record {
                rows = link_row p now q ∷ db.playlists.rows;
                deleted = db.playlists.deleted;
              };
              items = rows ++ db.items;
            } in
            Links-trans db db1 db'
              (record {
                kept = λ j r at. find_id-cons_new (link_row p now q) db.playlists.rows j r free at;
                same_tombstones = refl;
                same_groups = refl;
                same_channels = refl;
                same_group_members = refl;
                same_channel_members = refl;
              })
              (insert_missing_rows-Links qs db1 db' h2)
      ]

  pub insert_missing_playlists_batch-Links :
      (qs : List IngestedPlaylist) (db db' : Db)
      → insert_missing_playlists_batch p now qs db ≡ ok db'
      → Links db db'
  unfolding insert_missing_playlists_batch
  insert_missing_playlists_batch-Links [] db db' h =
      subst (Links db) (ok-injective h) (Links-refl db)
  insert_missing_playlists_batch-Links (q ∷ qs) db db' h =
      let (unique, u, h1) = bind-eq-ok (unique_playlist_params [] (q ∷ qs)) _ h in
      let (alive, h2) = then-eq-ok (require_none_tombstoned db.playlists unique) _ h1 in
      let (db1, put, fin) = bind-eq-ok (insert_missing_rows p now unique db) _ h2 in
      let l = insert_missing_rows-Links unique db db1 put in
      subst (Links db) (ok-injective fin) (record {
        kept = l.kept;
        same_tombstones = l.same_tombstones;
        same_groups = l.same_groups;
        same_channels = l.same_channels;
        same_group_members = l.same_group_members;
        same_channel_members = l.same_channel_members;
      })

any-holds :
    (deleted : List UuidValue) (j : UuidValue) (qs : List IngestedPlaylist)
    → holds j deleted ≡ true
    → any (λ q. holds q.id deleted) qs ≡ false
    → any (λ q. nat_eq q.id j) qs ≡ false
any-holds deleted j [] held none_held = refl
any-holds deleted j (q ∷ qs) held none_held = elim (Bool-cases (nat_eq q.id j)) [
  | inl e ↦
      let same : holds q.id deleted ≡ true = rw ((nat_eq_iff q.id j).0 e) held in
      absurd (ground (arith, same))
  | inr n ↦ rw n (any-holds deleted j qs held (ground arith))
]

find_id-cons_other :
    (new : Row) (rows : List Row) (j : UuidValue)
    → nat_eq new.id j ≡ false
    → find_id j rows ≡ none
    → find_id j (new ∷ rows) ≡ none
unfolding find_id
find_id-cons_other new rows j n h = rw n h

module _ (p : Platform) (now : Time) where
  insert_missing_rows-gone :
      (qs : List IngestedPlaylist) (db db' : Db) (j : UuidValue)
      → insert_missing_rows p now qs db ≡ ok db'
      → any (λ q. nat_eq q.id j) qs ≡ false
      → find_id j db.playlists.rows ≡ none
      → find_id j db'.playlists.rows ≡ none
  unfolding insert_missing_rows
  insert_missing_rows-gone [] db db' j h n gone =
      subst (λ (d : Db). find_id j d.playlists.rows ≡ none) (ok-injective h) gone
  insert_missing_rows-gone (q ∷ qs) db db' j h n gone =
      elim (Option-cases (find_id q.id db.playlists.rows)) [
        | inr (r, found) ↦
            insert_missing_rows-gone qs db db' j (rw (found, insert_missing_rows) at h)
              (ground arith) gone
        | inl free ↦
            let h0 = rw (free, insert_missing_rows) at h in
            let (slug_free, h1) =
              then-eq-ok (require (not (is_some (find_slug q.slug db.playlists.rows))) already) _
                h0 in
            let (rows, made, h2) =
              bind-eq-ok
                (or_error (item_failure p [] (p.body_item_ids q.raw))
                  (item_rows p q.id now 0 [] (p.body_item_ids q.raw)))
                _ h1 in
            insert_missing_rows-gone qs
              (record db {
                playlists = record {
                  rows = link_row p now q ∷ db.playlists.rows;
                  deleted = db.playlists.deleted;
                };
                items = rows ++ db.items;
              })
              db' j h2 (ground arith)
              (find_id-cons_other (link_row p now q) db.playlists.rows j (ground arith) gone)
      ]

  -- A reference never brings a deleted playlist back.
  pub insert_missing_playlists_batch-IsRetired :
      (qs : List IngestedPlaylist) (db db' : Db)
      → insert_missing_playlists_batch p now qs db ≡ ok db'
      → IsRetired db.playlists
      → IsRetired db'.playlists
  unfolding insert_missing_playlists_batch
  insert_missing_playlists_batch-IsRetired [] db db' h v =
      subst (λ (d : Db). IsRetired d.playlists) (ok-injective h) v
  insert_missing_playlists_batch-IsRetired (q ∷ qs) db db' h v =
      let l = insert_missing_playlists_batch-Links p now (q ∷ qs) db db' h in
      let (unique, u, h1) = bind-eq-ok (unique_playlist_params [] (q ∷ qs)) _ h in
      let (alive, h2) = then-eq-ok (require_none_tombstoned db.playlists unique) _ h1 in
      let (db1, put, fin) = bind-eq-ok (insert_missing_rows p now unique db) _ h2 in
      let none_held = not-true _ (require-eq-ok _ _ alive) in
      record {
        gone = λ j held.
            let held0 : holds j db.playlists.deleted ≡ true = rw (← l.same_tombstones) held in
            subst (λ (d : Db). find_id j d.playlists.rows ≡ none) (ok-injective fin)
              (insert_missing_rows-gone unique db db1 j put
                (any-holds db.playlists.deleted j unique held0 none_held) (v.gone j held0));
      }
