-- ===== src/Store/Lists/Memberships/Orders.antt =====
-- A client that follows the tokens of a container's list reads its members in the order of their
-- positions.
use dp1_feed_v.Shared.{
  ℕ, ◌≡◌, ◌<◌, ◌≤◌, refl, sym, ap, ◌∙◌, subst, String, Bool, true, false, ◌||◌, ◌==◌, Option, none,
  some, List, [], ok, err, ◌>>=◌, length, filter, all, leb, nat_eq, trim_space, lower_eq,
  str_eq_refl, arith, filter-true,
}
use mathlib.Core.Path.{fun_ext}
use dp1_feed_v.Errors.{Result}
use dp1_feed_v.Models.{Row, Playlist}
use dp1_feed_v.Platform.{Platform}
use dp1_feed_v.Store.Playlists.{Db, Member}
use dp1_feed_v.Store.Keyset.{
  SortOrder, unset, ascending, descending, Key, past, order_by, parse_sort_order,
}
use dp1_feed_v.Store.Keyset.Order.{IsDistinct}
use dp1_feed_v.Store.Keyset.Lists.{read_rows, list_page, follow_pages}
use dp1_feed_v.Store.Keyset.Lists.Walks.{follow_pages-page}
use dp1_feed_v.Store.Cursors.{
  Codec, MembershipCursorPayload, membership_wire, encode_membership_cursor, show_sort,
  is_sort_text, max_int32, membership_kind_channel, membership_kind_playlist_group,
}
use dp1_feed_v.Store.Cursors.Tokens.{
  IsCodec, json_time_end, uuid_end, decode_membership_cursor-encode_membership_cursor,
}
use dp1_feed_v.Store.Lists.{ListParams}
use dp1_feed_v.Store.Lists.Memberships.{
  member_rows, member_key, canonical, resolve_container, check_membership_cursor,
  membership_cursor_of, membership_token, membership_page, list_container,
}

-- A container that a token can name.
pub record IsNameable (kind : String) (container : Row) : Type 0 where
  pub kind_known :
      (kind == membership_kind_channel || kind == membership_kind_playlist_group) ≡ true
  pub id_positive : 0 < container.id
  pub id_bounded : container.id < uuid_end
  pub revision_positive : 0 < container.updated_at
  pub revision_bounded : container.updated_at < json_time_end

-- A position that fits the column.
abbrev pub fits_int : Row × ℕ → Bool
fits_int m = leb m.1 max_int32

is_sort_text-canonical : (o : SortOrder) → is_sort_text (show_sort (canonical o)) ≡ true
unfolding is_sort_text show_sort canonical parse_sort_order trim_space lower_eq
is_sort_text-canonical unset = refl
is_sort_text-canonical ascending = refl
is_sort_text-canonical descending = refl

nat_eq_refl : (n : ℕ) → nat_eq n n ≡ true
nat_eq_refl n = ground arith

leb→le : (a b : ℕ) → leb a b ≡ true → a ≤ b
leb→le a b h = ground arith

-- The boundary that a cursor stands for in the list of one container.
member_boundary : Codec → String → Row → SortOrder → String → Result (Option Key)
member_boundary c kind container o cursor = membership_cursor_of c cursor >>= λ cur.
    check_membership_cursor kind container (canonical o) cur

-- What the token of a member says.
abbrev pub cursor_for : String → Row → SortOrder → Row × ℕ → MembershipCursorPayload ℕ
cursor_for kind container o m = record {
  kind = kind;
  container = container.id;
  sort = show_sort (canonical o);
  rev = container.updated_at;
  position = m.1;
}

module _ (c : Codec) (codec : IsCodec c) (kind : String) (container : Row) (o : SortOrder) where
  pub membership_cursor_of-membership_token :
      (m : Row × ℕ)
      → IsNameable kind container
      → fits_int m ≡ true
      → membership_cursor_of c (membership_token c kind container (canonical o) m)
        ≡ ok (some (cursor_for kind container o m))
  unfolding membership_token membership_cursor_of encode_membership_cursor
  membership_cursor_of-membership_token m nameable fits =
      let payload = cursor_for kind container o m in
      let back =
        decode_membership_cursor-encode_membership_cursor c codec payload (canonical o)
          nameable.kind_known nameable.id_positive nameable.id_bounded refl
          (is_sort_text-canonical o) nameable.revision_positive nameable.revision_bounded
          (leb→le m.1 max_int32 fits) in
      rw (
        codec.membership_nonempty (membership_wire payload) nameable.revision_bounded,
        back,
        encode_membership_cursor,
      )

  token-boundary :
      (m : Row × ℕ)
      → IsNameable kind container
      → fits_int m ≡ true
      → ((membership_token c kind container (canonical o) m == "") ≡ false)
        × (member_boundary c kind container o (membership_token c kind container (canonical o) m)
            ≡ ok (some (member_key m)))
  unfolding member_boundary membership_token encode_membership_cursor check_membership_cursor
  token-boundary m nameable fits = (
    codec.membership_nonempty (membership_wire (cursor_for kind container o m))
        nameable.revision_bounded,
    rw
        (
          membership_cursor_of-membership_token m nameable fits,
          str_eq_refl kind,
          nat_eq_refl container.id,
          str_eq_refl (show_sort (canonical o)),
          nat_eq_refl container.updated_at,
        )
        refl,
  )

module _ (c : Codec) (p : Platform) (kind key : String) (containers : List Row) (ms : List Member)
    (q : ListParams) (db : Db) (container : Row) where
  list_container-list_page :
      (limit : ℕ) (cursor : String)
      → resolve_container p key containers ≡ some container
      → list_container c p kind key containers ms (record q { cursor = cursor }) limit db
        ≡ list_page member_key
            (λ m. p.decode_playlist (m.0).raw)
            (membership_token c kind container (canonical q.sort))
            (canonical q.sort)
            (member_boundary c kind container q.sort)
            limit
            (member_rows container.id ms db.playlists.rows)
            cursor
  unfolding list_container member_boundary list_page membership_page
  list_container-list_page limit cursor found = resolved (membership_cursor_of c cursor)
    where
      resolved :
          (m : Result (Option (MembershipCursorPayload ℕ)))
          → (m >>= λ cur. elim (resolve_container p key containers) [
            | none ↦ ok ([], "")
            | some r ↦ check_membership_cursor kind r (canonical q.sort) cur >>= λ b.
                membership_page c p kind (canonical q.sort) limit b ms db.playlists.rows r
          ])
            ≡ ((m >>= λ cur. check_membership_cursor kind container (canonical q.sort) cur) >>= λ b.
                membership_page c p kind (canonical q.sort) limit b ms db.playlists.rows container)
      resolved (ok cur) = rw found
      resolved (err e) = refl

  -- With a codec that reads back what it wrote, a container that the key names and a token can name, a
  -- positive limit, and members that differ in position, whose positions fit an INT and whose playlists
  -- decode: following the tokens of the container's list from the first page on, for more pages than it
  -- has members, gives one record for each membership row, in the order of the positions.
  pub follow_pages-list_container :
      IsCodec c
      → (limit fuel : ℕ) (out : List ((Row × ℕ) × Playlist))
      → resolve_container p key containers ≡ some container
      → IsNameable kind container
      → 0 < limit
      → IsDistinct member_key (member_rows container.id ms db.playlists.rows)
      → all fits_int (member_rows container.id ms db.playlists.rows) ≡ true
      → length
          (order_by member_key (canonical q.sort) (member_rows container.id ms db.playlists.rows))
        < fuel
      → read_rows
          (λ (m : Row × ℕ). p.decode_playlist (m.0).raw)
          (order_by member_key (canonical q.sort) (member_rows container.id ms db.playlists.rows))
        ≡ ok out
      → follow_pages
          (λ cursor.
            list_container c p kind key containers ms (record q { cursor = cursor }) limit db)
          fuel
          ""
        ≡ ok out
  unfolding past member_boundary membership_cursor_of check_membership_cursor
  follow_pages-list_container codec limit fuel out found nameable l d v f h =
      let rows = member_rows container.id ms db.playlists.rows in
      let o = canonical q.sort in
      let whole : filter (past member_key o none) (order_by member_key o rows)
          ≡ order_by member_key o rows =
        filter-true (order_by member_key o rows) in
      ap
        (λ (get : String → Result (List ((Row × ℕ) × Playlist) × String)). follow_pages get fuel "")
        (fun_ext (λ cursor. list_container-list_page limit cursor found))
      ∙ follow_pages-page member_key (λ m. p.decode_playlist (m.0).raw)
          (membership_token c kind container o) o (member_boundary c kind container q.sort) fits_int
          (λ m. token-boundary c codec kind container q.sort m nameable) fuel limit rows "" none out
          l d v refl (subst (λ (xs : List (Row × ℕ)). length xs < fuel) (sym whole) f)
          (ap (read_rows (λ m. p.decode_playlist (m.0).raw)) whole ∙ h)
