-- ===== src/Http/Conditional.antt =====
-- internal/httpserver/etag.go, and the handlers of handlers.go that serve one document: the entity tag
-- over the bytes that are served, and the answer without a body to a client that has them. The digest is
-- SHA-256 in hexadecimal, given as a function.
pub mod Revalidation
use Prim.Native.Char.{Char}
use Prim.Native.String.{[], ◌∷◌}
use dp1_feed_v.Shared.{
  ℕ, String, Bool, true, false, not, ◌==◌, Option, none, some, List, [], ◌∷◌, ◌++◌, any,
  if◌then◌else◌, Outcome, ok, err, ◌>>=◌, trim_space, trim_prefix, split_commas,
}
use dp1_feed_v.Errors.{Result}
use dp1_feed_v.Models.{Bytes}
use dp1_feed_v.Platform.{Platform}
use dp1_feed_v.Store.{Db, get_playlist, get_playlist_group}
use dp1_feed_v.Http.Mapping.{HttpError}
use dp1_feed_v.Http.Queries.{mapped}

abbrev pub quote : Char
quote = "\""

-- The text and a quote behind it.
closed : String → String
closed [] = quote ∷ []
closed (c ∷ s) = c ∷ closed s

-- `"` + s + `"`
unfoldable pub quoted : String → String
unfolding closed
quoted s = quote ∷ closed s

-- One part of an If-None-Match names the tag, weakly or strongly.
unfoldable pub part_matches : String → String → Bool
part_matches etag part =
    let t = trim_space part in if t == "" then false else trim_space (trim_prefix t "W/") == etag

unfoldable pub if_none_match_not_modified : String → String → Bool
unfolding part_matches
if_none_match_not_modified inm etag =
    if inm == ""
    then false
    else if trim_space inm == "*"
    then false
    else any (part_matches etag) (split_commas inm)

-- The status, the entity tag and the body of an answer.
pub record Served : Type 0 where
  pub status : ℕ
  pub etag : String
  pub body : Bytes

-- `header` is If-None-Match, the empty text where it is missing.
unfoldable pub serve_individual_get : String → Bytes → String → Served
unfolding if_none_match_not_modified
serve_individual_get header b etag =
    if if_none_match_not_modified header etag
    then record { status = 304; etag = etag; body = [] }
    else record { status = 200; etag = etag; body = b }

module _ (sha256_hex : Bytes → String) where
  unfoldable pub strong_etag : Bytes → String
  unfolding quoted
  strong_etag b = quoted (sha256_hex b)

  unfoldable pub write_bytes_individual_get : String → Bytes → Served
  unfolding serve_individual_get strong_etag
  write_bytes_individual_get header b = serve_individual_get header b (strong_etag b)

  unfoldable pub handle_get_playlist : Platform → String → String → Db → Outcome HttpError Served
  handle_get_playlist p header key db = do
    rec ← mapped (get_playlist p key db)
    ok (write_bytes_individual_get header rec.row.raw)

  unfoldable pub handle_get_playlist_group :
      Platform → String → String → Db → Outcome HttpError Served
  handle_get_playlist_group p header key db = do
    rec ← mapped (get_playlist_group p key db)
    ok (write_bytes_individual_get header rec.row.raw)
