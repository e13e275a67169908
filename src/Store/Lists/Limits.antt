-- ===== src/Store/Lists/Limits.antt =====
-- What one page of `ListPlaylists` holds, under each filter.
use dp1_feed_v.Shared.{
  ℕ, suc, ◌⊎◌, Option-cases, ◌≡◌, ◌≤◌, refl, sym, ap, ◌∙◌, subst, String, Bool, true, false, not,
  ◌&&◌, ◌||◌, ◌==◌, List, [], ◌∷◌, ok, require, bind-eq-ok, then-eq-ok, ok-injective, length, all,
  filter, Bool-cases, inl, inr, trim_space, arith, and-left,
}
use dp1_feed_v.Errors.{invalid_list_filter}
use dp1_feed_v.Models.{Row, Playlist}
use dp1_feed_v.Platform.{Platform}
use dp1_feed_v.Store.Playlists.{Db, Member}
use dp1_feed_v.Store.Keyset.Lists.{list_page}
use dp1_feed_v.Store.Keyset.Lists.Limits.{keyset_page_lem}
use dp1_feed_v.Store.Cursors.{Codec, membership_kind_channel, membership_kind_playlist_group}
use dp1_feed_v.Store.Lists.{
  ListParams, resolve_list_limit, row_key, created_at_boundary, created_at_token, created_at_list,
  playlist_directory_filters, list_playlist_directory,
}
use dp1_feed_v.Store.Lists.Directories.{resolve_list_limit_bounds}
use dp1_feed_v.Store.Lists.Memberships.{
  member_rows, member_key, canonical, resolve_container, check_membership_cursor,
  membership_cursor_of, membership_token, membership_page, list_container,
  list_playlists_by_membership, records_of, list_playlists,
}

all-filter_implies :
    {A : Type 0} (f g : A → Bool) (xs : List A)
    → ((x : A) → g x ≡ true → f x ≡ true)
    → all f (filter g xs) ≡ true
all-filter_implies f g [] h = refl
all-filter_implies f g (x ∷ xs) h = ground (arith, h x, all-filter_implies f g xs h)

all-always : {A : Type 0} (xs : List A) → all (λ x. true) xs ≡ true
all-always [] = refl
all-always (x ∷ xs) = all-always xs

length-records_of : (out : List ((Row × ℕ) × Playlist)) → length (records_of out) ≡ length out
length-records_of [] = refl
length-records_of ((m, b) ∷ out) = ap suc (length-records_of out)

some-filter : (a b : Bool) → (not a || not b) ≡ true → (a && b) ≡ false
some-filter a b h = ground arith

module _ (c : Codec) (p : Platform) (q : ListParams) (db : Db) where
  list_playlist_directory_lem :
      (limit : ℕ) (out : List (Row × Playlist)) (next : String)
      → list_playlist_directory c p q limit db ≡ ok (out, next)
      → (length out ≤ limit) × (all (λ (r : Row × Playlist). p.is_listed (r.0).raw) out ≡ true)
  unfolding list_playlist_directory created_at_list list_page playlist_directory_filters
  list_playlist_directory_lem limit out next h =
      let (b, _, k) = bind-eq-ok (created_at_boundary c q.cursor) _ h in
      let keep = playlist_directory_filters p (trim_space q.curator_filter) in
      keyset_page_lem row_key (λ r. p.decode_playlist r.raw) (created_at_token c) q.sort
        (λ r. p.is_listed r.raw) limit b (filter keep db.playlists.rows) out next
        (all-filter_implies (λ r. p.is_listed r.raw) keep db.playlists.rows
          (λ r h. and-left (p.is_listed r.raw) _ h))
        k

  length-list_container :
      (kind key : String) (containers : List Row) (ms : List Member) (limit : ℕ)
      (out : List ((Row × ℕ) × Playlist)) (next : String)
      → list_container c p kind key containers ms q limit db ≡ ok (out, next)
      → length out ≤ limit
  unfolding list_container membership_page
  length-list_container kind key containers ms limit out next h =
      let (cur, _, k) = bind-eq-ok (membership_cursor_of c q.cursor) _ h in
      elim (Option-cases (resolve_container p key containers)) [
        | inl e ↦
            let none_out = rw e at k in
            let same : [] ≡ out =
              ap (λ (r : List ((Row × ℕ) × Playlist) × String). r.0) (ok-injective none_out) in
            subst (λ (s : List ((Row × ℕ) × Playlist)). length s ≤ limit) same (omega arith)
        | inr (r, e) ↦
            let found = rw e at k in
            let (b, _, l) =
              bind-eq-ok (check_membership_cursor kind r (canonical q.sort) cur) _ found in
            (keyset_page_lem member_key (λ (m : Row × ℕ). p.decode_playlist (m.0).raw)
              (membership_token c kind r (canonical q.sort)) (canonical q.sort) (λ m. true) limit b
              (member_rows r.id ms db.playlists.rows) out next
              (all-always (member_rows r.id ms db.playlists.rows)) l).0
      ]

  length-list_playlists_by_membership :
      (limit : ℕ) (channel group : String) (out : List ((Row × ℕ) × Playlist)) (next : String)
      → list_playlists_by_membership c p q limit channel group db ≡ ok (out, next)
      → length out ≤ limit
  unfolding list_playlists_by_membership
  length-list_playlists_by_membership limit channel group out next h =
      elim (Bool-cases (not (channel == ""))) [
        | inl e ↦
            length-list_container membership_kind_channel channel db.channels.rows
              db.channel_members limit out next (rw e at h)
        | inr e ↦
            length-list_container membership_kind_playlist_group group db.groups.rows
              db.group_members limit out next (rw e at h)
      ]

  -- Every page of `ListPlaylists`, under any filter and any cursor, has at most as many records as the
  -- limit in force, and never more than 512; and without a container filter all of them are listed.
  pub list_playlists_lem :
      (out : List (Row × Playlist)) (next : String)
      → list_playlists c p q db ≡ ok (out, next)
      → (limit : ℕ) × (resolve_list_limit q.limit ≡ ok limit)
        × (length out ≤ limit)
        × (limit ≤ 512)
        × (((trim_space q.channel_filter == "") && (trim_space q.playlist_group_filter == ""))
              ≡ false
            ⊎ all (λ (r : Row × Playlist). p.is_listed (r.0).raw) out ≡ true)
  unfolding list_playlists
  list_playlists_lem out next h =
      let (limit, r, k) = bind-eq-ok (resolve_list_limit q.limit) _ h in
      let bound = (resolve_list_limit_bounds q.limit limit r).1 in
      let channel = trim_space q.channel_filter in
      let group = trim_space q.playlist_group_filter in
      elim (Bool-cases (not (channel == "") || not (group == ""))) [
        | inl e ↦
            let (plain, l) =
              then-eq-ok (require (trim_space q.curator_filter == "") (invalid_list_filter ∷ [])) _
                (rw e at k) in
            let ((members, token), m, fin) =
              bind-eq-ok (list_playlists_by_membership c p q limit channel group db) _ l in
            let same : records_of members ≡ out =
              ap (λ (x : List (Row × Playlist) × String). x.0) (ok-injective fin) in
            (
              limit,
              r,
              subst (λ (n : ℕ). n ≤ limit) (sym (length-records_of members) ∙ ap length same)
                  (length-list_playlists_by_membership limit channel group members token m),
              bound,
              inl (some-filter (channel == "") (group == "") e),
            )
        | inr e ↦
            let (size, listed) = list_playlist_directory_lem limit out next (rw e at k) in
            (limit, r, size, bound, inr listed)
      ]
