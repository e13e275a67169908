-- ===== src/Exec/Resolution.antt =====
-- What the resolved references of a group or channel are.
mod Keys
use dp1_feed_v.Shared.{
  ℕ, zero, suc, ◌+◌, String, ◌≡◌, refl, subst, true, false, ◌||◌, some, List, [], ◌∷◌, map, length,
  get_elem?, ◌==◌, eq_iff, nat_eq, leb, ok, require, bind-eq-ok, then-eq-ok, ok-injective,
  Bool-cases, inl, inr, arith, trim_space,
}
use dp1_feed_v.Errors.{too_many_references, resolved_too_large}
use dp1_feed_v.Models.{IngestedPlaylist}
use dp1_feed_v.Platform.{Platform, ValidatorSigner}
use dp1_feed_v.Exec.Settings.{Impl, Call}
use dp1_feed_v.Exec.References.{
  Fetcher, Snapshots, key_in, distinct_keys, resolved_at, require_uri_lengths,
  resolve_one_playlist_ref, resolve_each, resolve_playlist_uris,
}
use dp1_feed_v.Exec.Resolution.Keys.{
  distinct_keys-covers, Unique, distinct_keys-Unique, place_of, listed_at, distinct_keys-asked,
}

get_elem?-map {ℓ κ} :
    {A : Type ℓ} {B : Type κ} (f : A → B) (xs : List A) (i : ℕ) (x : A)
    → get_elem? xs i ≡ some x
    → get_elem? (map f xs) i ≡ some (f x)
get_elem?-map f [] i x h = cc
get_elem?-map f (y ∷ xs) zero x h = ground (arith, h)
get_elem?-map f (y ∷ xs) (suc i) x h = get_elem?-map f xs i x h

module _ (p : Platform) (dp1 : ValidatorSigner) (e : Impl) (call : Call) (fetch : Fetcher)
    (seen : Snapshots) where
  -- What was resolved of the references of a document: each distinct one once, `order` being the order of
  -- the resolutions, and each position of the document holds what the one resolution of its reference gave.
  pub record IsResolved (uris : List String) (out : List IngestedPlaylist) : Type 0 where
    pub order : List String
    pub once : Unique order
    pub asked : (k : String) → key_in k order ≡ true → key_in k (map trim_space uris) ≡ true
    pub positions :
        (i : ℕ) (u : String)
        → get_elem? uris i ≡ some u
        → (n : ℕ) × (get_elem? order n ≡ some (trim_space u))
          × ((q : IngestedPlaylist) × (get_elem? out i ≡ some q)
              × (resolve_one_playlist_ref p dp1 e call fetch n (seen n) (trim_space u) ≡ ok q))

  abbrev Resolves : ℕ → String → IngestedPlaylist → Type 0
  Resolves n k q = resolve_one_playlist_ref p dp1 e call fetch n (seen n) k ≡ ok q

  -- The first resolution and the others.
  resolve_each_lem :
      (from total : ℕ) (uri : String) (order : List String) (rs : List (String × IngestedPlaylist))
      → resolve_each p dp1 e call fetch seen from total (uri ∷ order) ≡ ok rs
      → (ing : IngestedPlaylist) × Resolves from uri ing
        × ((next : ℕ) × (rest : List (String × IngestedPlaylist)) × (resolve_each p dp1 e call fetch
                seen
                (suc from)
                next
                order
              ≡ ok rest)
            × ((uri, ing) ∷ rest ≡ rs))
  unfolding resolve_each
  resolve_each_lem from total uri order rs h =
      let (ing, one, h1) =
        bind-eq-ok (resolve_one_playlist_ref p dp1 e call fetch from (seen from) uri) _ h in
      let (fits, h2) =
        then-eq-ok
          (require
            (nat_eq e.max_resolved_bytes 0 || leb (total + length ing.raw) e.max_resolved_bytes)
            (resolved_too_large ∷ []))
          _ h1 in
      let (rest, each, fin) =
        bind-eq-ok (resolve_each p dp1 e call fetch seen (suc from) (total + length ing.raw) order)
          _ h2 in
      (ing, one, (total + length ing.raw, rest, each, ok-injective fin))

  resolved_at_head :
      (uri k : String) (ing : IngestedPlaylist) (rest : List (String × IngestedPlaylist))
      → uri ≡ k
      → resolved_at ((uri, ing) ∷ rest) k ≡ ing
  unfolding resolved_at
  resolved_at_head uri k ing rest same = rw ((eq_iff uri k).1 same) refl

  resolved_at_tail :
      (uri k : String) (ing : IngestedPlaylist) (rest : List (String × IngestedPlaylist))
      → (uri == k) ≡ false
      → resolved_at ((uri, ing) ∷ rest) k ≡ resolved_at rest k
  unfolding resolved_at
  resolved_at_tail uri k ing rest other = rw other refl

  -- A reference that is not listed is none of those that are.
  other_than :
      (uri k : String) (order : List String)
      → key_in uri order ≡ false
      → key_in k order ≡ true
      → (uri == k) ≡ false
  other_than uri k order out_of listed = elim (Bool-cases (uri == k)) [
    | inl same ↦ let bad : key_in uri order ≡ true = rw ((eq_iff uri k).0 same) listed in cc
    | inr other ↦ other
  ]

  resolve_each-at :
      (from total : ℕ) (order : List String) (rs : List (String × IngestedPlaylist)) (k : String)
      (n : ℕ)
      → Unique order
      → resolve_each p dp1 e call fetch seen from total order ≡ ok rs
      → get_elem? order n ≡ some k
      → Resolves (from + n) k (resolved_at rs k)
  resolve_each-at from total [] rs k n w h at = cc
  resolve_each-at from total (uri ∷ order) rs k zero w h at =
      let (ing, one, (next, rest, each, fin)) = resolve_each_lem from total uri order rs h in
      let same : uri ≡ k = ground (arith, at) in
      let start : from ≡ from + 0 = omega arith in
      subst (λ (l : List (String × IngestedPlaylist)). Resolves (from + 0) k (resolved_at l k)) fin
        (rw (resolved_at_head uri k ing rest same) (
          subst (λ (m : ℕ). Resolves m k ing) start
            (subst (λ (j : String). Resolves from j ing) same one)))
  resolve_each-at from total (uri ∷ order) rs k (suc n) (new, w) h at =
      let (ing, one, (next, rest, each, fin)) = resolve_each_lem from total uri order rs h in
      let later : suc from + n ≡ from + suc n = omega arith in
      subst (λ (l : List (String × IngestedPlaylist)). Resolves (from + suc n) k (resolved_at l k))
        fin
        (rw (resolved_at_tail uri k ing rest (other_than uri k order new (listed_at k order n at)))
          (subst (λ (m : ℕ). Resolves m k (resolved_at rest k)) later
            (resolve_each-at (suc from) next order rest k n w each at)))

  position :
      (uris : List String) (rs : List (String × IngestedPlaylist)) (i : ℕ) (u : String)
      → resolve_each p dp1 e call fetch seen 0 0 (distinct_keys [] uris) ≡ ok rs
      → get_elem? uris i ≡ some u
      → (n : ℕ) × (get_elem? (distinct_keys [] uris) n ≡ some (trim_space u))
        × ((q : IngestedPlaylist) × (get_elem? (map (λ r. resolved_at rs (trim_space r)) uris) i
              ≡ some q)
            × Resolves n (trim_space u) q)
  position uris rs i u each at =
      let (n, place) =
        place_of (trim_space u) (distinct_keys [] uris) (distinct_keys-covers [] uris i u at) in
      let first : 0 + n ≡ n = omega arith in
      (
        n,
        place,
        (
          resolved_at rs (trim_space u),
          get_elem?-map (λ r. resolved_at rs (trim_space r)) uris i u at,
          subst (λ (m : ℕ). Resolves m (trim_space u) (resolved_at rs (trim_space u))) first
              (resolve_each-at 0 0 (distinct_keys [] uris) rs (trim_space u) n
                (distinct_keys-Unique [] uris) each place),
        ),
      )

  -- Where the references of a document resolve, each distinct trimmed reference was resolved once and no other
  -- text was, and each position of the document holds what that one resolution gave, although another
  -- resolution of it might have given something else; so membership follows the document's order and equal
  -- references hold the same playlist.
  pub resolve_playlist_uris-IsResolved :
      (uris : List String) (out : List IngestedPlaylist)
      → resolve_playlist_uris p dp1 e call fetch seen uris ≡ ok out
      → IsResolved uris out
  unfolding resolve_playlist_uris
  resolve_playlist_uris-IsResolved [] out h = cc
  resolve_playlist_uris-IsResolved (v ∷ us) out h =
      let (few, h1) =
        then-eq-ok
          (require (nat_eq e.max_refs 0 || leb (length (v ∷ us)) e.max_refs)
            (too_many_references ∷ []))
          _ h in
      let (short, h2) = then-eq-ok (require_uri_lengths (v ∷ us)) _ h1 in
      let (rs, each, fin) =
        bind-eq-ok (resolve_each p dp1 e call fetch seen 0 0 (distinct_keys [] (v ∷ us))) _ h2 in
      subst (IsResolved (v ∷ us)) (ok-injective fin) (record {
        order = distinct_keys [] (v ∷ us);
        once = distinct_keys-Unique [] (v ∷ us);
        asked = λ k. distinct_keys-asked [] (v ∷ us) k;
        positions = λ i u. position (v ∷ us) rs i u each;
      })
