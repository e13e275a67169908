-- ===== src/Http/Flows.antt =====
-- What a client sees of a write and the read behind it: the routes of internal/httpserver over the executor
-- and the store.
use dp1_feed_v.Shared.{
  String, Option, some, List, ok, err, bind-eq-ok, ok-injective, ◌≡◌, refl, ap, subst, ◌∙◌,
}
use dp1_feed_v.Errors.{Result}
use dp1_feed_v.Models.{Bytes, UuidValue, Playlist, PlaylistRequest, SignedIntent}
use dp1_feed_v.Platform.{Platform, ValidatorSigner}
use dp1_feed_v.Store.{Db, PlaylistRecord, get_playlist, find_id}
use dp1_feed_v.Exec.{Impl, Call, Event, SignedPlaylist, replace_playlist}
use dp1_feed_v.Exec.Commits.{replace_playlist-IsReplaced}
use dp1_feed_v.Http.Queries.{mapped}
use dp1_feed_v.Http.Conditional.{
  if_none_match_not_modified, serve_individual_get, strong_etag, write_bytes_individual_get,
  handle_get_playlist,
}
use dp1_feed_v.Http.Gate.{ReadBody, EnvelopeReader, require_signatures_gate}
use dp1_feed_v.Http.Writes.{
  Binder, Written, bound, bind_signed_replace, handle_replace_playlist, gated,
}

module _ (p : Platform) where
  -- A row that is found by its id, and whose bytes decode, is read.
  get_playlist-id :
      (id : UuidValue) (db : Db) (rec : PlaylistRecord)
      → p.parse_uuid (p.show_uuid id) ≡ some id
      → find_id id db.playlists.rows ≡ some rec.row
      → p.decode_playlist rec.row.raw ≡ some rec.body
      → get_playlist p (p.show_uuid id) db ≡ ok rec
  unfolding get_playlist
  get_playlist-id id db rec u f d = rw (u, f, d) refl

mapped_lem : {A : Type 0} (m : Result A) {a : A} → mapped m ≡ ok a → m ≡ ok a
mapped_lem (ok a) h = ap (λ z. ok z) (ok-injective h)
mapped_lem (err e) h = cc

module _ (sha256_hex : Bytes → String) (p : Platform) where
  -- What a PUT that was answered with 200 has done, as a client sees it.
  pub record IsVisible (key : String) (db : Db) (w : Written) : Type 0 where
    pub answered : w.status ≡ 200
    pub target : PlaylistRecord
    pub addressed : get_playlist p key db ≡ ok target
    pub served :
        handle_get_playlist sha256_hex p "" (p.show_uuid target.row.id) w.db
        ≡ ok (record {
          status = 200;
          etag = strong_etag sha256_hex (p.jsonb_text w.body);
          body = p.jsonb_text w.body;
        })

  get_fresh :
      (key : String) (db : Db) (rec : PlaylistRecord)
      → get_playlist p key db ≡ ok rec
      → handle_get_playlist sha256_hex p "" key db
        ≡ ok
            (record { status = 200; etag = strong_etag sha256_hex rec.row.raw; body = rec.row.raw })
  unfolding handle_get_playlist write_bytes_individual_get serve_individual_get
      if_none_match_not_modified
  get_fresh key db rec h = rw h refl

module _ (sha256_hex : Bytes → String) (p : Platform) (dp1 : ValidatorSigner) (e : Impl)
    (call : Call) where
  replaced-IsVisible :
      (key : String) (req : PlaylistRequest) (intent : Option SignedIntent) (db db' : Db)
      (out : SignedPlaylist) (db'' : Db) (events : List Event) (body : Playlist)
      → ((id : UuidValue) → p.parse_uuid (p.show_uuid id) ≡ some id)
      → p.decode_playlist (p.jsonb_text out.raw) ≡ some body
      → replace_playlist p dp1 e call key req intent db db' ≡ ok (out, db'', events)
      → IsVisible sha256_hex p key db
          (record { status = 200; body = out.raw; db = db''; events = events })
  replaced-IsVisible key req intent db db' out db'' events body uuids decodes h =
      let r =
        replace_playlist-IsReplaced p dp1 e call key req intent db db' out db'' events uuids h in
      let w = r.rewritten in
      let target : PlaylistRecord = record { row = w.current; body = body } in
      let got : get_playlist p (p.show_uuid out.id) db'' ≡ ok target =
        get_playlist-id p out.id db'' target (uuids out.id) w.stored
          (ap p.decode_playlist w.bytes ∙ decodes) in
      record {
        answered = refl;
        target = r.authorized.target;
        addressed = r.authorized_at_read.read;
        served =
            subst
              (λ (i : UuidValue).
                handle_get_playlist sha256_hex p "" (p.show_uuid i) db''
                ≡ ok (record {
                  status = 200;
                  etag = strong_etag sha256_hex (p.jsonb_text out.raw);
                  body = p.jsonb_text out.raw;
                }))
              r.returned_id
              (subst
                (λ (x : Bytes).
                  handle_get_playlist sha256_hex p "" (p.show_uuid out.id) db''
                  ≡ ok (record { status = 200; etag = strong_etag sha256_hex x; body = x }))
                w.bytes (get_fresh sha256_hex p (p.show_uuid out.id) db'' target got));
      }

module _ (sha256_hex : Bytes → String) (j : EnvelopeReader) (b : Binder) (p : Platform)
    (dp1 : ValidatorSigner) (e : Impl) (call : Call) where
  -- A PUT of a playlist that passes the signature gate and is answered without an error is answered 200 with
  -- the co-signed bytes, and from the database that the PUT left a GET of the playlist that it addressed
  -- serves the JSONB of these bytes, under the entity tag of the bytes served: given UUIDs that read back and
  -- a JSONB that decodes.
  pub put-get :
      (key : String) (read : ReadBody) (db db' : Db) (w : Written) (body : Playlist)
      → ((id : UuidValue) → p.parse_uuid (p.show_uuid id) ≡ some id)
      → gated j read (λ raw. handle_replace_playlist b p dp1 e call key raw db db') ≡ ok w
      → p.decode_playlist (p.jsonb_text w.body) ≡ some body
      → IsVisible sha256_hex p key db w
  unfolding gated handle_replace_playlist
  put-get key read db db' w body uuids h decodes =
      let (raw, _, h1) = bind-eq-ok (require_signatures_gate j read) _ h in
      let (r, _, h2) =
        bind-eq-ok (bound (bind_signed_replace b b.bind_playlist b.playlist_shape raw)) _ h1 in
      let (done, ran, made) =
        bind-eq-ok
          (mapped
            (replace_playlist p dp1 e call key (record (r.1) { raw = r.0 }) (some r.2) db db'))
          _ h2 in
      let made' = ok-injective made in
      subst (IsVisible sha256_hex p key db) made' (
        replaced-IsVisible sha256_hex p dp1 e call key (record (r.1) { raw = r.0 }) (some r.2) db
          db' done.0 done.1 done.2 body uuids
          (ap (λ (x : Written). p.decode_playlist (p.jsonb_text x.body)) made' ∙ decodes)
          (mapped_lem _ ran))
