-- ===== src/Store/Lists/Memberships/Revisions.antt =====
-- Membership tokens across a replace of their container.
use dp1_feed_v.Shared.{
  ℕ, ◌≡◌, ◌<◌, refl, sym, ap, ◌∙◌, subst, String, true, false, ◌&&◌, ◌==◌, some, List, [], ◌∷◌, ok,
  err, nat_eq, trim_space, Bool-cases, inl, inr, arith,
}
use dp1_feed_v.Errors.{invalid_cursor}
use dp1_feed_v.Models.{UuidValue, Time, Row}
use dp1_feed_v.Platform.{Platform}
use dp1_feed_v.Store.Tables.{find_id}
use dp1_feed_v.Store.Playlists.{Db, Member}
use dp1_feed_v.Store.Containers.{ContainerInput, update_channel}
use dp1_feed_v.Store.Updates.{update_channel-IsRelisted}
use dp1_feed_v.Store.Keyset.{SortOrder}
use dp1_feed_v.Store.Cursors.{Codec, MembershipCursorPayload, show_sort, membership_kind_channel}
use dp1_feed_v.Store.Cursors.Tokens.{IsCodec}
use dp1_feed_v.Store.Lists.{ListParams, resolve_list_limit}
use dp1_feed_v.Store.Lists.Memberships.{
  canonical, resolve_container, check_membership_cursor, membership_token, list_container,
  list_playlists_by_membership, list_playlists,
}
use dp1_feed_v.Store.Lists.Memberships.Orders.{
  IsNameable, fits_int, membership_cursor_of-membership_token, cursor_for,
}

check_membership_cursor-stale :
    (kind : String) (container : Row) (sort : SortOrder) (cur : MembershipCursorPayload ℕ)
    → cur.rev < container.updated_at
    → check_membership_cursor kind container sort (some cur) ≡ err (invalid_cursor ∷ [])
unfolding check_membership_cursor
check_membership_cursor-stale kind container sort cur late =
    let differs : nat_eq cur.rev container.updated_at ≡ false = ground arith in
    elim (Bool-cases
      (cur.kind == kind && nat_eq cur.container container.id && cur.sort == show_sort sort)) [
        | inl e ↦ rw (e, differs) refl
        | inr n ↦ rw n refl
      ]

module _ (c : Codec) (codec : IsCodec c) (p : Platform) (q : ListParams) (db : Db) where
  -- A token of a container whose row has a later revision now.
  list_container-stale :
      (kind key : String) (id : UuidValue) (containers : List Row) (ms : List Member) (limit : ℕ)
      (old current : Row) (sort : SortOrder) (m : Row × ℕ)
      → p.parse_uuid key ≡ some id
      → find_id id containers ≡ some current
      → IsNameable kind old
      → fits_int m ≡ true
      → old.updated_at < current.updated_at
      → list_container c p kind key containers ms
          (record q { cursor = membership_token c kind old (canonical sort) m })
          limit
          db
        ≡ err (invalid_cursor ∷ [])
  unfolding list_container resolve_container
  list_container-stale kind key id containers ms limit old current sort m parsed found nameable fits
        late =
      rw (
        membership_cursor_of-membership_token c codec kind old sort m nameable fits,
        parsed,
        found,
        check_membership_cursor-stale kind current (canonical q.sort) (cursor_for kind old sort m)
            late,
      )

  -- A token that a channel's list issued is refused as an invalid cursor by every request for that channel
  -- after `UpdateChannel` on it, whatever the instant of the update: where the codec reads back what it
  -- wrote, the channel of the token is the one that was updated, a token can name it, the position fits an
  -- INT, and the request names the channel by its id, with a limit that the store accepts and no curator
  -- filter.
  pub list_playlists-stale :
      (now : Time) (key : String) (id : UuidValue) (input : ContainerInput) (expected : Time)
      (before : Db) (old : Row) (sort : SortOrder) (m : Row × ℕ) (limit : ℕ)
      → p.parse_uuid key ≡ some id
      → update_channel p now key input expected before ≡ ok db
      → find_id id before.channels.rows ≡ some old
      → IsNameable membership_kind_channel old
      → fits_int m ≡ true
      → p.parse_uuid (trim_space q.channel_filter) ≡ some id
      → (trim_space q.channel_filter == "") ≡ false
      → (trim_space q.curator_filter == "") ≡ true
      → resolve_list_limit q.limit ≡ ok limit
      → list_playlists c p
          (record q { cursor = membership_token c membership_kind_channel old (canonical sort) m })
          db
        ≡ err (invalid_cursor ∷ [])
  unfolding list_playlists list_playlists_by_membership
  list_playlists-stale now key id input expected before old sort m limit parsed done was nameable
        fits named nonempty plain resolved =
      let w =
        (update_channel-IsRelisted p now key id input expected before db parsed done).rewritten in
      let same : w.before ≡ old = cc in
      let late : old.updated_at < w.current.updated_at =
        subst (λ (t : Time). t < w.current.updated_at)
          (sym w.generation ∙ ap (λ (r : Row). r.updated_at) same) w.strictly_later in
      rw (
        resolved,
        nonempty,
        plain,
        list_container-stale membership_kind_channel (trim_space q.channel_filter) id
            db.channels.rows db.channel_members limit old w.current sort m named w.stored nameable
            fits late,
      )
