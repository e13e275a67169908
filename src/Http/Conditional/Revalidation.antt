-- ===== src/Http/Conditional/Revalidation.antt =====
-- A client that sends an entity tag back.
use Prim.Native.Char.{code}
use Prim.Native.String.{[], ◌∷◌}
use dp1_feed_v.Shared.{
  ℕ, ◌≡◌, ◌≢◌, refl, sym, ap, ◌∙◌, String, Bool, true, false, ◌||◌, ◌==◌, eq_iff, str_eq_refl, [],
  ◌∷◌, ok, bind-eq-ok, ok-injective, trim_prefix, is_plain, trim_space-plain, split_commas-plain,
  and-intro, and-left, and-right, arith, Bool-cases, inl, inr,
}
use dp1_feed_v.Models.{Bytes}
use dp1_feed_v.Platform.{Platform}
use dp1_feed_v.Store.{Db, get_playlist}
use dp1_feed_v.Http.Queries.{mapped}
use dp1_feed_v.Http.Conditional.{
  closed, quoted, part_matches, if_none_match_not_modified, Served, serve_individual_get,
  strong_etag, write_bytes_individual_get, handle_get_playlist,
}

closed-plain : (s : String) → is_plain s ≡ true → is_plain (closed s) ≡ true
unfolding closed is_plain
closed-plain [] h = refl
closed-plain (c ∷ s) h =
    and-intro (and-left _ (is_plain s) h) (closed-plain s (and-right _ (is_plain s) h))

quoted-plain : (s : String) → is_plain s ≡ true → is_plain (quoted s) ≡ true
unfolding quoted is_plain
quoted-plain s h = closed-plain s h

-- The first code point of a text.
abbrev first_code : String → ℕ
first_code [] = 0
first_code (c ∷ s) = code c

quoted-differs : (s t : String) → first_code t ≢ b'"' → (quoted s == t) ≡ false
unfolding quoted
quoted-differs s t n = elim (Bool-cases (quoted s == t)) [
  | inl e ↦ absurd (n (sym (ap first_code ((eq_iff (quoted s) t).0 e))))
  | inr f ↦ f
]

trim_prefix-quoted : (s : String) → trim_prefix (quoted s) "W/" ≡ quoted s
unfolding trim_prefix quoted
trim_prefix-quoted s = refl

part_matches-quoted : (s : String) → is_plain s ≡ true → part_matches (quoted s) (quoted s) ≡ true
unfolding part_matches
part_matches-quoted s h =
    let trimmed = trim_space-plain (quoted s) (quoted-plain s h) in
    let nonempty = quoted-differs s "" (λ e. omega (arith, e)) in
    rw (trimmed, nonempty, trim_prefix-quoted s, trimmed, str_eq_refl (quoted s)) refl

quoted-matches :
    (s : String) → is_plain s ≡ true → if_none_match_not_modified (quoted s) (quoted s) ≡ true
unfolding if_none_match_not_modified
quoted-matches s h =
    let plain = quoted-plain s h in
    rw
      (
        quoted-differs s "" (λ e. omega (arith, e)),
        trim_space-plain (quoted s) plain,
        quoted-differs s "*" (λ e. omega (arith, e)),
        split_commas-plain (quoted s) plain,
      )
      (ap (λ (b : Bool). b || false) (part_matches-quoted s h))

etag-serve_individual_get :
    (header : String) (b : Bytes) (etag : String) → (serve_individual_get header b etag).etag ≡ etag
unfolding serve_individual_get
etag-serve_individual_get header b etag =
    elim (Bool-cases (if_none_match_not_modified header etag)) [
      | inl e ↦ rw e refl
      | inr e ↦ rw e refl
    ]

serve_individual_get-own :
    (b : Bytes) (s : String)
    → is_plain s ≡ true
    → serve_individual_get (quoted s) b (quoted s)
      ≡ record { status = 304; etag = quoted s; body = [] }
unfolding serve_individual_get
serve_individual_get-own b s h = rw (quoted-matches s h) refl

module _ (sha256_hex : Bytes → String) (p : Platform) where
  -- Where digests hold neither space nor commas: a client that was served a playlist, whatever it sent,
  -- and sends the entity tag of that answer back while the playlist's row is unchanged, is answered 304
  -- with the same tag and no body.
  pub handle_get_playlist-revalidated :
      (header key : String) (db : Db) (served : Served)
      → ((b : Bytes) → is_plain (sha256_hex b) ≡ true)
      → handle_get_playlist sha256_hex p header key db ≡ ok served
      → handle_get_playlist sha256_hex p served.etag key db
        ≡ ok (record { status = 304; etag = served.etag; body = [] })
  unfolding handle_get_playlist write_bytes_individual_get strong_etag
  handle_get_playlist-revalidated header key db served plain h =
      let (rec, got, e) = bind-eq-ok (mapped (get_playlist p key db)) _ h in
      let raw = rec.row.raw in
      let digest = sha256_hex raw in
      let tag : served.etag ≡ quoted digest =
        sym (ap (λ (v : Served). v.etag) (ok-injective e))
        ∙ etag-serve_individual_get header raw (quoted digest) in
      rw (got, tag) (ap ok (serve_individual_get-own raw digest (plain raw)))
