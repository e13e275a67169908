-- ===== src/Http/Queries/Pages.antt =====
-- What the list endpoint of playlists answers.
use dp1_feed_v.Shared.{
  ◌⊎◌, ℕ, ℤ, pos, negsuc, suc, ◌≡◌, ◌≤◌, ◌<◌, refl, sym, ap, ◌∙◌, subst, String, Bool, true, not,
  ◌||◌, ◌==◌, Option, some, List, [], ◌∷◌, length, all, ok, err, require, bind-eq-ok, then-eq-ok,
  ok-injective, trim_space, Bool-cases, Option-cases, inl, inr, arith,
}
use dp1_feed_v.Errors.{Error, Result, extensions_disabled}
use dp1_feed_v.Models.{Bytes, Row, Playlist}
use dp1_feed_v.Platform.{Platform}
use dp1_feed_v.Store.{Db}
use dp1_feed_v.Store.Keyset.{parse_sort_order}
use dp1_feed_v.Store.Cursors.{Codec}
use dp1_feed_v.Store.Lists.{ListParams, resolve_list_limit}
use dp1_feed_v.Store.Lists.Memberships.{list_playlists}
use dp1_feed_v.Store.Lists.Limits.{list_playlists_lem}
use dp1_feed_v.Exec.{Impl}
use dp1_feed_v.Exec.Reads.{list_playlist_records}
use dp1_feed_v.Http.Queries.{
  ListQuery, ListResponse, normalize_list_limit, parse_list_limit_query, parse_list_query, atoi,
  new_list_response, mapped, sort_text, documents, handle_list_playlists,
}

normalize_list_limit_bounds :
    (z : ℤ) → (0 < normalize_list_limit z) × (normalize_list_limit z ≤ 100)
unfolding normalize_list_limit
normalize_list_limit_bounds (negsuc n) = (omega arith, omega arith)
normalize_list_limit_bounds (pos n) = (ground arith, ground arith)

parse_list_limit_query_bounds :
    (s : String) (n : ℕ) → parse_list_limit_query s ≡ some n → (0 < n) × (n ≤ 100)
unfolding parse_list_limit_query
parse_list_limit_query_bounds s n h = elim (Bool-cases (trim_space s == "")) [
  | inl e ↦ let same : 100 ≡ n = some-inj (rw e at h) in (omega (arith, same), omega (arith, same))
  | inr e ↦ elim (Option-cases (atoi (trim_space s))) [
    | inl f ↦ (let bad = rw (e, f) at h in cc)
    | inr (z, f) ↦
        let same : normalize_list_limit z ≡ n = some-inj (rw (e, f) at h) in
        subst (λ (m : ℕ). (0 < m) × (m ≤ 100)) same (normalize_list_limit_bounds z)
  ]
]
  where
    some-inj : {a b : ℕ} → ◌≡◌ {A = Option ℕ} (some a) (some b) → a ≡ b
    some-inj h = cc

resolve_list_limit-small : (n : ℕ) → 0 < n → n ≤ 100 → resolve_list_limit (pos n) ≡ ok n
unfolding resolve_list_limit
resolve_list_limit-small n l h = ground arith

mapped-eq-ok : {A : Type 0} (m : Result A) {a : A} → mapped m ≡ ok a → m ≡ ok a
mapped-eq-ok (ok b) h = cc
mapped-eq-ok (err e) h = cc

-- What the executor is given for a query.
record IsRead (r : ListQuery) (q : ListParams) : Type 0 where
  limit : ℕ
  limit_params : q.limit ≡ pos limit
  limit_positive : 0 < limit
  limit_bounded : limit ≤ 100
  channel : q.channel_filter ≡ trim_space r.channel
  group : q.playlist_group_filter ≡ trim_space r.playlist_group

parse_list_query-IsRead : (r : ListQuery) (q : ListParams) → parse_list_query r ≡ ok q → IsRead r q
unfolding parse_list_query
parse_list_query-IsRead r q h = elim (Option-cases (parse_list_limit_query r.limit)) [
  | inl e ↦ (let bad = rw (e, parse_list_query) at h in cc)
  | inr (n, e) ↦ elim (Result-cases (parse_sort_order (sort_text r.sort))) [
    | inl (_, f) ↦ (let bad = rw (e, f, parse_list_query) at h in cc)
    | inr (o, f) ↦
        let same = ok-injective (rw (e, f, parse_list_query) at h) in
        let (l, u) = parse_list_limit_query_bounds r.limit n e in
        subst (λ (x : ListParams). IsRead r x) same
          (record {
            limit = n;
            limit_params = refl;
            limit_positive = l;
            limit_bounded = u;
            channel = refl;
            group = refl;
          })
  ]
]
  where
    Result-cases :
        {A : Type 0} (m : Result A) → ((x : Error) × (m ≡ err x)) ⊎ ((a : A) × (m ≡ ok a))
    Result-cases (ok a) = inr (a, refl)
    Result-cases (err x) = inl (x, refl)

length-documents : {B : Type 0} (rs : List (Row × B)) → length (documents rs) ≡ length rs
unfolding documents
length-documents [] = refl
length-documents (r ∷ rs) = ap suc (length-documents rs)

all-documents :
    {B : Type 0} (f : Bytes → Bool) (rs : List (Row × B))
    → all (λ (r : Row × B). f (r.0).raw) rs ≡ true
    → all f (documents rs) ≡ true
unfolding documents
all-documents f [] h = refl
all-documents f (r ∷ rs) h = ground (arith, all-documents f rs)

module _ (c : Codec) (p : Platform) (e : Impl) (r : ListQuery) (db : Db) where
  handle_list_playlists-page :
      (resp : ListResponse Bytes)
      → handle_list_playlists c p e r db ≡ ok resp
      → (q : ListParams) × (records : List (Row × Playlist)) × (next : String) × IsRead r q
        × (list_playlists c p q db ≡ ok (records, next))
        × (new_list_response (documents records) next ≡ resp)
  unfolding handle_list_playlists list_playlist_records
  handle_list_playlists-page resp h =
      let (q, read, h1) = bind-eq-ok (parse_list_query r) _ h in
      let (_, h2) = then-eq-ok _ _ h1 in
      let (_, h3) = then-eq-ok _ _ h2 in
      let ((records, next), m, fin) = bind-eq-ok (mapped (list_playlist_records c p e q db)) _ h3 in
      let (_, l) =
        then-eq-ok
          (require (e.extensions_enabled || trim_space q.channel_filter == "")
            (extensions_disabled ∷ []))
          _ (mapped-eq-ok (list_playlist_records c p e q db) m) in
      (q, records, next, parse_list_query-IsRead r q read, l, ok-injective fin)

  -- The page that `GET /api/v1/playlists` answers with holds at most 100 documents, whatever the limit in
  -- the query, and says that more follow exactly if it has a cursor.
  pub handle_list_playlists_bounds :
      (resp : ListResponse Bytes)
      → handle_list_playlists c p e r db ≡ ok resp
      → (length resp.items ≤ 100) × (resp.has_more ≡ not (resp.cursor == ""))
  unfolding new_list_response
  handle_list_playlists_bounds resp h =
      let (q, records, next, read, l, fin) = handle_list_playlists-page resp h in
      let (limit, res, size, _, _) = list_playlists_lem c p q db records next l in
      let same : read.limit ≡ limit = ok-injective (
        sym (resolve_list_limit-small read.limit read.limit_positive read.limit_bounded)
        ∙ sym (ap resolve_list_limit read.limit_params)
        ∙ res) in
      subst
        (λ (x : ListResponse Bytes). (length x.items ≤ 100) × (x.has_more ≡ not (x.cursor == "")))
        fin (omega (arith, length-documents records, same, size, read.limit_bounded), refl)

  -- Without a channel or playlist-group filter, every document of the page is of a listed playlist.
  pub handle_list_playlists_listed :
      (resp : ListResponse Bytes)
      → trim_space r.channel ≡ ""
      → trim_space r.playlist_group ≡ ""
      → handle_list_playlists c p e r db ≡ ok resp
      → all p.is_listed resp.items ≡ true
  unfolding new_list_response trim_space
  handle_list_playlists_listed resp no_channel no_group h =
      let (q, records, next, read, l, fin) = handle_list_playlists-page resp h in
      let (_, _, _, _, alternative) = list_playlists_lem c p q db records next l in
      let blank_channel : q.channel_filter ≡ "" = read.channel ∙ no_channel in
      let blank_group : q.playlist_group_filter ≡ "" = read.group ∙ no_group in
      subst (λ (x : ListResponse Bytes). all p.is_listed x.items ≡ true) fin
        (all-documents p.is_listed records (elim alternative [
          | inl bad ↦ (let no = rw (blank_channel, blank_group) at bad in cc)
          | inr good ↦ good
        ]))
