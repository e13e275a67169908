-- ===== src/Store/Cursors/Tokens.antt =====
-- Tokens that the store issues, read back by the decoder of their list and by those of other lists.
use dp1_feed_v.Shared.{
  ℕ, ℤ, pos, ◌≡◌, ◌≤◌, ◌<◌, true, false, ◌||◌, ◌==◌, some, [], ◌∷◌, nat_eq, ok, err, arith,
}
use dp1_feed_v.Models.{Bytes, UuidValue, Time}
use dp1_feed_v.Store.Keyset.{SortOrder}
use dp1_feed_v.Store.Cursors.{
  show_sort, CursorPayload, MembershipCursorPayload, PlaylistItemCursorPayload, Codec, max_int32,
  membership_kind_channel, membership_kind_playlist_group, is_sort_text, has_field, has_value,
  require_cursor_fields, position_in_range, membership_wire, playlist_item_wire, encode_cursor,
  decode_cursor, encode_membership_cursor, decode_membership_cursor, encode_playlist_item_cursor,
  decode_playlist_item_cursor,
}

-- `time.Time.MarshalJSON` fails from the year 10000 on.
abbrev pub json_time_end : Time
json_time_end = 315537897600000000000

-- 2 ^ 128
abbrev pub uuid_end : UuidValue
uuid_end = 340282366920938463463374607431768211456

-- What the store relies on of base64 and of the JSON of its three structs: a marshalled struct has its
-- tags as keys, none of them null, is read back as it was, and has a token other than the empty text.
pub record IsCodec (c : Codec) : Type 0 where
  pub base64 : (b : Bytes) → c.decode_base64 (c.encode_base64 b) ≡ some b
  pub cursor_nonempty :
      (p : CursorPayload)
      → p.created_at < json_time_end
      → (c.encode_base64 (c.marshal_cursor p) == "") ≡ false
  pub cursor_fields :
      (p : CursorPayload)
      → p.created_at < json_time_end
      → c.raw_fields (c.marshal_cursor p) ≡ some (("t", true) ∷ ("id", true) ∷ [])
  pub cursor :
      (p : CursorPayload)
      → p.created_at < json_time_end
      → p.id < uuid_end
      → c.unmarshal_cursor (c.marshal_cursor p) ≡ some p
  pub membership_nonempty :
      (p : MembershipCursorPayload ℤ)
      → p.rev < json_time_end
      → (c.encode_base64 (c.marshal_membership_cursor p) == "") ≡ false
  pub membership_fields :
      (p : MembershipCursorPayload ℤ)
      → p.rev < json_time_end
      → c.raw_fields (c.marshal_membership_cursor p)
        ≡ some
            (("kind", true) ∷ ("cid", true) ∷ ("sort", true) ∷ ("rev", true) ∷ ("pos", true) ∷ [])
  pub membership :
      (p : MembershipCursorPayload ℕ) (o : SortOrder)
      → (p.kind == membership_kind_channel || p.kind == membership_kind_playlist_group) ≡ true
      → p.sort ≡ show_sort o
      → p.rev < json_time_end
      → p.container < uuid_end
      → p.position ≤ max_int32
      → c.unmarshal_membership_cursor (c.marshal_membership_cursor (membership_wire p))
        ≡ some (membership_wire p)
  pub item_nonempty :
      (p : PlaylistItemCursorPayload ℤ)
      → p.created_at < json_time_end
      → (c.encode_base64 (c.marshal_playlist_item_cursor p) == "") ≡ false
  pub item_fields :
      (p : PlaylistItemCursorPayload ℤ)
      → p.created_at < json_time_end
      → c.raw_fields (c.marshal_playlist_item_cursor p)
        ≡ some (("t", true) ∷ ("pos", true) ∷ ("iid", true) ∷ [])
  pub item :
      (p : PlaylistItemCursorPayload ℕ)
      → p.created_at < json_time_end
      → p.item_id < uuid_end
      → p.position ≤ max_int32
      → c.unmarshal_playlist_item_cursor (c.marshal_playlist_item_cursor (playlist_item_wire p))
        ≡ some (playlist_item_wire p)

nat_eq-zero : (n : ℕ) → 0 < n → nat_eq n 0 ≡ false
nat_eq-zero n h = ground arith

position_in_range-pos : (n : ℕ) → n ≤ max_int32 → position_in_range (pos n) ≡ some n
unfolding position_in_range
position_in_range-pos n h = ground arith

module _ (c : Codec) (codec : IsCodec c) where
  -- A token issued for a created_at list, with a time other than the zero time and before the year
  -- 10000 and an id other than the nil UUID, is decoded to the row that it was issued for.
  pub decode_cursor-encode_cursor :
      (p : CursorPayload)
      → 0 < p.created_at
      → p.created_at < json_time_end
      → 0 < p.id
      → p.id < uuid_end
      → decode_cursor c (encode_cursor c p) ≡ ok p
  unfolding decode_cursor encode_cursor has_field has_value require_cursor_fields
  decode_cursor-encode_cursor p t u i v = rw (
    codec.base64 (c.marshal_cursor p),
    codec.cursor_fields p u,
    codec.cursor p u v,
    nat_eq-zero p.created_at t,
    nat_eq-zero p.id i,
  )

  -- A membership token with a known kind, a container other than the nil UUID, a sort direction, a
  -- revision other than the zero time and before the year 10000, and a position that fits an INT is
  -- decoded to what it was issued for.
  pub decode_membership_cursor-encode_membership_cursor :
      (p : MembershipCursorPayload ℕ) (o : SortOrder)
      → (p.kind == membership_kind_channel || p.kind == membership_kind_playlist_group) ≡ true
      → 0 < p.container
      → p.container < uuid_end
      → p.sort ≡ show_sort o
      → is_sort_text p.sort ≡ true
      → 0 < p.rev
      → p.rev < json_time_end
      → p.position ≤ max_int32
      → decode_membership_cursor c (encode_membership_cursor c p) ≡ ok p
  unfolding decode_membership_cursor encode_membership_cursor has_field has_value
      require_cursor_fields
  decode_membership_cursor-encode_membership_cursor p o k i v d s r u n =
      let wire = membership_wire p in
      rw (
        codec.base64 (c.marshal_membership_cursor wire),
        codec.membership_fields wire u,
        codec.membership p o k d u v n,
        k,
        nat_eq-zero p.container i,
        s,
        nat_eq-zero p.rev r,
        position_in_range-pos p.position n,
      )

  -- An item token with a time other than the zero time and before the year 10000, an item other than
  -- the nil UUID, and a position that fits an INT is decoded to the item that it was issued for.
  pub decode_playlist_item_cursor-encode_playlist_item_cursor :
      (p : PlaylistItemCursorPayload ℕ)
      → 0 < p.created_at
      → p.created_at < json_time_end
      → p.position ≤ max_int32
      → 0 < p.item_id
      → p.item_id < uuid_end
      → decode_playlist_item_cursor c (encode_playlist_item_cursor c p) ≡ ok p
  unfolding decode_playlist_item_cursor encode_playlist_item_cursor has_field has_value
      require_cursor_fields
  decode_playlist_item_cursor-encode_playlist_item_cursor p t u n i v =
      let wire = playlist_item_wire p in
      rw (
        codec.base64 (c.marshal_playlist_item_cursor wire),
        codec.item_fields wire u,
        codec.item p u v n,
        nat_eq-zero p.created_at t,
        position_in_range-pos p.position n,
        nat_eq-zero p.item_id i,
      )

  -- With times before the year 10000, each of the three decoders refuses the tokens of the two other
  -- lists.
  pub decoders_refuse_other_lists :
      (p : CursorPayload) (m : MembershipCursorPayload ℕ) (i : PlaylistItemCursorPayload ℕ)
      → p.created_at < json_time_end
      → m.rev < json_time_end
      → i.created_at < json_time_end
      → (decode_cursor c (encode_membership_cursor c m) ≡ err [])
        × (decode_cursor c (encode_playlist_item_cursor c i) ≡ err [])
        × (decode_membership_cursor c (encode_cursor c p) ≡ err [])
        × (decode_membership_cursor c (encode_playlist_item_cursor c i) ≡ err [])
        × (decode_playlist_item_cursor c (encode_cursor c p) ≡ err [])
        × (decode_playlist_item_cursor c (encode_membership_cursor c m) ≡ err [])
  unfolding decode_cursor encode_cursor decode_membership_cursor encode_membership_cursor
      decode_playlist_item_cursor encode_playlist_item_cursor has_field has_value
      require_cursor_fields
  decoders_refuse_other_lists p m i u v w =
      let mw = membership_wire m in
      let iw = playlist_item_wire i in
      let b = codec.base64 (c.marshal_cursor p) in
      let bm = codec.base64 (c.marshal_membership_cursor mw) in
      let bi = codec.base64 (c.marshal_playlist_item_cursor iw) in
      (
        rw (bm, codec.membership_fields mw v),
        rw (bi, codec.item_fields iw w),
        rw (b, codec.cursor_fields p u),
        rw (bi, codec.item_fields iw w),
        rw (b, codec.cursor_fields p u),
        rw (bm, codec.membership_fields mw v),
      )
