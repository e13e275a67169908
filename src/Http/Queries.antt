-- ===== src/Http/Queries.antt =====
-- internal/httpserver/pagination.go, and the list handlers of handlers.go: the query is read, checked,
-- and passed to the executor, and its page is answered as an envelope.
pub mod Pages
use Prim.Native.Char.{code}
use Prim.Native.String.{[], ◌∷◌}
use dp1_feed_v.Shared.{
  ℕ, ℤ, pos, negsuc, ◌+◌, ◌*◌, ◌-◌, String, Bool, true, false, not, ◌&&◌, ◌||◌, ◌==◌, Option, none,
  some, List, [], ◌∷◌, map, nat_eq, leb, ltb, if◌then◌else◌, Outcome, ok, err, require, ◌>>=◌, ◌>>◌,
  trim_space,
}
use dp1_feed_v.Models.{Bytes, Row, Playlist, Group, Channel}
use dp1_feed_v.Errors.{Result}
use dp1_feed_v.Platform.{Platform}
use dp1_feed_v.Store.{Db, ItemRow}
use dp1_feed_v.Store.Keyset.{SortOrder, parse_sort_order}
use dp1_feed_v.Store.Cursors.{Codec}
use dp1_feed_v.Store.Lists.{ListParams}
use dp1_feed_v.Exec.{Impl}
use dp1_feed_v.Exec.Reads.{
  list_playlist_records, list_group_records, list_channel_records, list_items,
}
use dp1_feed_v.Http.Mapping.{HttpError, map_executor_error}

abbrev pub default_list_limit : ℕ
default_list_limit = 100

abbrev pub max_list_limit : ℕ
max_list_limit = 100

-- The third test, against `MinListLimit`, is never reached: a positive number is at least 1.
unfoldable pub normalize_list_limit : ℤ → ℕ
normalize_list_limit (negsuc n) = default_list_limit
normalize_list_limit (pos n) =
    if nat_eq n 0 then default_list_limit else if ltb max_list_limit n then max_list_limit else n

-- The digits of a decimal number, `acc` the value of those before; `none` at another character.
digits : ℕ → String → Option ℕ
digits acc [] = some acc
digits acc (c ∷ s) =
    if leb b'0' (code c) && leb (code c) b'9' then digits (acc * 10 + (code c - b'0')) s else none

abbrev magnitude : String → Option ℕ
magnitude [] = none
magnitude (c ∷ s) = digits 0 (c ∷ s)

abbrev int_end : ℕ
int_end = 9223372036854775808

non_negative : Option ℕ → Option ℤ
non_negative none = none
non_negative (some n) = if ltb n int_end then some (pos n) else none

negated : Option ℕ → Option ℤ
negated none = none
negated (some n) =
    if nat_eq n 0 then some (pos 0) else if leb n int_end then some (negsuc (n - 1)) else none

-- `strconv.Atoi`, of a 64-bit `int`
unfoldable pub atoi : String → Option ℤ
unfolding digits non_negative negated
atoi [] = none
atoi (c ∷ s) =
    if nat_eq (code c) b'-'
    then negated (magnitude s)
    else if nat_eq (code c) b'+'
    then non_negative (magnitude s)
    else non_negative (magnitude (c ∷ s))

unfoldable pub parse_list_limit_query : String → Option ℕ
unfolding atoi normalize_list_limit
parse_list_limit_query s =
    let t = trim_space s in
    if t == ""
    then some default_list_limit
    else elim (atoi t) [ none ↦ none | some n ↦ some (normalize_list_limit n) ]

-- The query of a list request. A parameter that is missing is the empty text, but for the sort order.
pub record ListQuery : Type 0 where
  pub limit : String
  pub cursor : String
  pub sort : Option String
  pub channel : String
  pub playlist_group : String
  pub curator : String
  pub publisher : String

-- `ListResponse`
pub record ListResponse (A : Type 0) : Type 0 where
  pub items : List A
  pub cursor : String
  pub has_more : Bool

unfoldable pub new_list_response : {A : Type 0} → List A → String → ListResponse A
new_list_response items next = record { items = items; cursor = next; has_more = not (next == "") }

abbrev pub Reply : Type 0 → Type 0
Reply A = Outcome HttpError (ListResponse A)

abbrev pub bad_request : HttpError
bad_request = record { status = 400; code = "bad_request" }

-- `if err != nil { st, code, msg := mapExecutorError(err); … }`
abbrev pub mapped : {A : Type 0} → Result A → Outcome HttpError A
mapped (ok a) = ok a
mapped (err e) = err (map_executor_error e)

-- `c.DefaultQuery("sort", "asc")`
abbrev pub sort_text : Option String → String
sort_text none = "asc"
sort_text (some s) = s

-- The parameters that the handlers read first. The limit is the one that the executor is given.
unfoldable pub parse_list_query : ListQuery → Outcome HttpError ListParams
unfolding parse_list_limit_query
parse_list_query r = elim (parse_list_limit_query r.limit) [
  | none ↦ err bad_request
  | some n ↦ elim (parse_sort_order (sort_text r.sort)) [
    | err e ↦ err bad_request
    | ok o ↦ ok (record {
      limit = pos n;
      cursor = r.cursor;
      sort = o;
      channel_filter = trim_space r.channel;
      playlist_group_filter = trim_space r.playlist_group;
      curator_filter = trim_space r.curator;
      publisher_filter = trim_space r.publisher;
    })
  ]
]

-- `playlistDocuments` and its kin: the stored bytes of each record.
unfoldable pub documents : {B : Type 0} → List (Row × B) → List Bytes
documents [] = []
documents (r ∷ rs) = (r.0).raw ∷ documents rs

abbrev both_set : String → String → Bool
both_set a b = not (a == "") && not (b == "")

module _ (c : Codec) (p : Platform) (e : Impl) where
  unfoldable pub handle_list_playlists : ListQuery → Db → Reply Bytes
  unfolding parse_list_query documents
  handle_list_playlists r db = do
    q ← parse_list_query r
    require (not (both_set q.channel_filter q.playlist_group_filter)) bad_request
    require (q.curator_filter == "" || (q.channel_filter == "" && q.playlist_group_filter == ""))
        bad_request
    page ← mapped (list_playlist_records c p e q db)
    ok (new_list_response (documents page.0) page.1)

  unfoldable pub handle_list_playlist_items :
      {Item : Type 0} → (ItemRow → Option Item) → ListQuery → Db → Reply Item
  unfolding parse_list_query
  handle_list_playlist_items decode_item r db = do
    q ← parse_list_query r
    require (not (both_set q.channel_filter q.playlist_group_filter)) bad_request
    page ← mapped (list_items c p e decode_item q db)
    ok (new_list_response page.0 page.1)

  unfoldable pub handle_list_playlist_groups : ListQuery → Db → Reply Bytes
  unfolding parse_list_query documents
  handle_list_playlist_groups r db = do
    q ← parse_list_query r
    page ← mapped (list_group_records c p e q db)
    ok (new_list_response (documents page.0) page.1)

  unfoldable pub handle_list_channels : ListQuery → Db → Reply Bytes
  unfolding parse_list_query documents
  handle_list_channels r db = do
    q ← parse_list_query r
    page ← mapped (list_channel_records c p e q db)
    ok (new_list_response (documents page.0) page.1)
