-- ===== src/Store/Cursors/Shapes.antt =====
-- What every token that a decoder accepts satisfies, whoever wrote it.
use dp1_feed_v.Shared.{
  ℕ, ℤ, pos, negsuc, ◌≡◌, ◌≤◌, ◌<◌, String, true, not, ◌||◌, ◌==◌, Option, none, some, [], ◌∷◌,
  nat_eq, ok, arith, bind-eq-ok, then-eq-ok, require-eq-ok, ok-injective, subst, require,
}
use dp1_feed_v.Auth.{or_error}
use dp1_feed_v.Store.Cursors.{
  MembershipCursorPayload, Codec, max_int32, membership_kind_channel,
  membership_kind_playlist_group, is_sort_text, position_in_range, decode_membership_cursor,
  require_cursor_fields, has_field,
}

position_in_range_le : (z : ℤ) (n : ℕ) → position_in_range z ≡ some n → n ≤ max_int32
unfolding position_in_range
position_in_range_le (pos m) n h = ground arith
position_in_range_le (negsuc m) n h = cc

or_error-eq-ok : {A : Type 0} (o : Option A) {a : A} → or_error [] o ≡ ok a → o ≡ some a
or_error-eq-ok none h = cc
or_error-eq-ok (some b) h = cc

not-zero : (n : ℕ) → not (nat_eq n 0) ≡ true → 0 < n
not-zero n h = ground arith

not-zeros : (m n : ℕ) → not (nat_eq m 0 || nat_eq n 0) ≡ true → (0 < m) × (0 < n)
not-zeros m n h = (ground arith, ground arith)

pub record IsMembershipCursor (m : MembershipCursorPayload ℕ) : Type 0 where
  pub kind_known :
      (m.kind == membership_kind_channel || m.kind == membership_kind_playlist_group) ≡ true
  pub container_positive : 0 < m.container
  pub sort_known : is_sort_text m.sort ≡ true
  pub rev_positive : 0 < m.rev
  pub position_bounded : m.position ≤ max_int32

module _ (c : Codec) (s : String) where
  -- Every membership token that is accepted has a known kind, a container other than the nil UUID, a sort
  -- direction, a revision other than the zero time, and a position that fits an INT.
  pub decode_membership_cursor-IsMembershipCursor :
      (m : MembershipCursorPayload ℕ) → decode_membership_cursor c s ≡ ok m → IsMembershipCursor m
  unfolding decode_membership_cursor
  decode_membership_cursor-IsMembershipCursor m h =
      let (b, _, h1) = bind-eq-ok (or_error [] (c.decode_base64 s)) _ h in
      let (raw, _, h2) = bind-eq-ok (or_error [] (c.raw_fields b)) _ h1 in
      let (_, h3) = then-eq-ok (require (not (has_field raw "t")) []) _ h2 in
      let (_, h4) =
        then-eq-ok (require_cursor_fields raw ("kind" ∷ "cid" ∷ "sort" ∷ "rev" ∷ "pos" ∷ [])) _
          h3 in
      let (q, _, h5) = bind-eq-ok (or_error [] (c.unmarshal_membership_cursor b)) _ h4 in
      let known = q.kind == membership_kind_channel || q.kind == membership_kind_playlist_group in
      let (k, h6) = then-eq-ok (require known []) _ h5 in
      let (i, h7) = then-eq-ok (require (not (nat_eq q.container 0)) []) _ h6 in
      let (o, h8) = then-eq-ok (require (is_sort_text q.sort) []) _ h7 in
      let (r, h9) = then-eq-ok (require (not (nat_eq q.rev 0)) []) _ h8 in
      let (n, g, e) = bind-eq-ok (or_error [] (position_in_range q.position)) _ h9 in
      subst (λ (x : MembershipCursorPayload ℕ). IsMembershipCursor x) (ok-injective e)
        (record {
          kind_known = require-eq-ok known [] k;
          container_positive = not-zero q.container (require-eq-ok _ [] i);
          sort_known = require-eq-ok (is_sort_text q.sort) [] o;
          rev_positive = not-zero q.rev (require-eq-ok _ [] r);
          position_bounded = position_in_range_le q.position n (or_error-eq-ok _ g);
        })
