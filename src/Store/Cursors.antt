-- ===== src/Store/Cursors.antt =====
-- The list cursors of internal/store/pg/store.go: opaque tokens, base64url of a JSON object. The codec
-- is encoding/base64 and encoding/json, given as functions. A wire position is any integer; a decoded
-- one is in the range of an SQL INT.
pub mod Tokens
pub mod Shapes
use dp1_feed_v.Shared.{
  ℕ, ℤ, pos, negsuc, String, Bool, true, false, not, ◌&&◌, ◌||◌, ◌==◌, Option, none, some, List, [],
  ◌∷◌, nat_eq, leb, if◌then◌else◌, ok, err, require, ◌>>=◌, ◌>>◌,
}
use dp1_feed_v.Errors.{Result}
use dp1_feed_v.Models.{Bytes, UuidValue, Time}
use dp1_feed_v.Auth.{or_error}
use dp1_feed_v.Store.Keyset.{SortOrder, unset, ascending, descending, parse_sort_order}

-- Members "t" and "id".
pub record CursorPayload : Type 0 where
  pub created_at : Time
  pub id : UuidValue

-- Members "kind", "cid", "sort", "rev" and "pos".
pub record MembershipCursorPayload (N : Type 0) : Type 0 where
  pub kind : String
  pub container : UuidValue
  pub sort : String
  pub rev : Time
  pub position : N

-- Members "t", "pos" and "iid".
pub record PlaylistItemCursorPayload (N : Type 0) : Type 0 where
  pub created_at : Time
  pub position : N
  pub item_id : UuidValue

-- The keys of a `map[string]json.RawMessage`, and whether the value is other than `null`.
abbrev pub RawFields : Type 0
RawFields = List (String × Bool)

pub record Codec : Type 0 where
  -- `base64.RawURLEncoding`
  pub encode_base64 : Bytes → String
  pub decode_base64 : String → Option Bytes
  -- `json.Unmarshal` into a map, and `json.Marshal` and `json.Unmarshal` of the three structs
  pub raw_fields : Bytes → Option RawFields
  pub marshal_cursor : CursorPayload → Bytes
  pub unmarshal_cursor : Bytes → Option CursorPayload
  pub marshal_membership_cursor : MembershipCursorPayload ℤ → Bytes
  pub unmarshal_membership_cursor : Bytes → Option (MembershipCursorPayload ℤ)
  pub marshal_playlist_item_cursor : PlaylistItemCursorPayload ℤ → Bytes
  pub unmarshal_playlist_item_cursor : Bytes → Option (PlaylistItemCursorPayload ℤ)

abbrev pub membership_kind_channel : String
membership_kind_channel = "channel"

abbrev pub membership_kind_playlist_group : String
membership_kind_playlist_group = "playlist-group"

abbrev pub max_int32 : ℕ
max_int32 = 2147483647

-- `string(sort)`
unfoldable pub show_sort : SortOrder → String
show_sort unset = ""
show_sort ascending = "asc"
show_sort descending = "desc"

-- `raw[key]`, present
unfoldable pub has_field : RawFields → String → Bool
has_field [] key = false
has_field ((k, v) ∷ fields) key = k == key || has_field fields key

-- `raw[key]`, present and not null
unfoldable pub has_value : RawFields → String → Bool
has_value [] key = false
has_value ((k, v) ∷ fields) key = if k == key then v else has_value fields key

unfoldable pub require_cursor_fields : RawFields → List String → Result (Unit {0})
require_cursor_fields raw [] = ok tt
require_cursor_fields raw (k ∷ keys) = do
  require (has_value raw k) []
  require_cursor_fields raw keys

-- A position that fits the column, which is an INT.
unfoldable pub position_in_range : ℤ → Option ℕ
position_in_range (pos n) = if leb n max_int32 then some n else none
position_in_range (negsuc n) = none

unfoldable pub is_sort_text : String → Bool
unfolding parse_sort_order
is_sort_text s = not (s == "") && elim (parse_sort_order s) [ ok o ↦ true | err e ↦ false ]

abbrev pub membership_wire : MembershipCursorPayload ℕ → MembershipCursorPayload ℤ
membership_wire p = record {
  kind = p.kind;
  container = p.container;
  sort = p.sort;
  rev = p.rev;
  position = pos p.position;
}

abbrev pub playlist_item_wire : PlaylistItemCursorPayload ℕ → PlaylistItemCursorPayload ℤ
playlist_item_wire p = record {
  created_at = p.created_at;
  position = pos p.position;
  item_id = p.item_id;
}

module _ (c : Codec) where
  unfoldable pub encode_cursor : CursorPayload → String
  encode_cursor p = c.encode_base64 (c.marshal_cursor p)

  unfoldable pub decode_cursor : String → Result CursorPayload
  decode_cursor s = do
    b ← or_error [] (c.decode_base64 s)
    raw ← or_error [] (c.raw_fields b)
    require (not (has_field raw "pos")) []
    require_cursor_fields raw ("t" ∷ "id" ∷ [])
    p ← or_error [] (c.unmarshal_cursor b)
    require (not (nat_eq p.created_at 0 || nat_eq p.id 0)) []
    ok p

  unfoldable pub encode_membership_cursor : MembershipCursorPayload ℕ → String
  encode_membership_cursor p = c.encode_base64 (c.marshal_membership_cursor (membership_wire p))

  unfoldable pub decode_membership_cursor : String → Result (MembershipCursorPayload ℕ)
  decode_membership_cursor s = do
    b ← or_error [] (c.decode_base64 s)
    raw ← or_error [] (c.raw_fields b)
    require (not (has_field raw "t")) []
    require_cursor_fields raw ("kind" ∷ "cid" ∷ "sort" ∷ "rev" ∷ "pos" ∷ [])
    p ← or_error [] (c.unmarshal_membership_cursor b)
    require (p.kind == membership_kind_channel || p.kind == membership_kind_playlist_group) []
    require (not (nat_eq p.container 0)) []
    require (is_sort_text p.sort) []
    require (not (nat_eq p.rev 0)) []
    n ← or_error [] (position_in_range p.position)
    ok (record { kind = p.kind; container = p.container; sort = p.sort; rev = p.rev; position = n })

  unfoldable pub encode_playlist_item_cursor : PlaylistItemCursorPayload ℕ → String
  encode_playlist_item_cursor p =
      c.encode_base64 (c.marshal_playlist_item_cursor (playlist_item_wire p))

  -- The guards that refuse tokens with "ics" or "pid" are for tokens of an earlier shape.
  unfoldable pub decode_playlist_item_cursor : String → Result (PlaylistItemCursorPayload ℕ)
  decode_playlist_item_cursor s = do
    b ← or_error [] (c.decode_base64 s)
    raw ← or_error [] (c.raw_fields b)
    require (not (has_field raw "ics")) []
    require (not (has_field raw "pid")) []
    require_cursor_fields raw ("t" ∷ "pos" ∷ "iid" ∷ [])
    p ← or_error [] (c.unmarshal_playlist_item_cursor b)
    require (not (nat_eq p.created_at 0)) []
    n ← or_error [] (position_in_range p.position)
    require (not (nat_eq p.item_id 0)) []
    ok (record { created_at = p.created_at; position = n; item_id = p.item_id })
