-- ===== src/Fetcher/Chains.antt =====
-- The requests that a fetch makes: which destinations it reaches, how many redirects it follows, and how
-- much it accepts.
use dp1_feed_v.Shared.{
  ◌⊎◌, ◌↔◌, ℕ, zero, suc, ◌≡◌, ◌≤◌, ◌<◌, refl, sym, ap, ◌∙◌, ℤ, pos, negsuc, leb, String, true,
  false, not, Option, none, some, [], ◌∷◌, length, take, nat_eq, nat_eq_iff, ltb, ltb→lt,
  length-take-suc, ltb→le, ok, require, ◌>>=◌, ◌>>◌, bind-eq-ok, then-eq-ok, require-eq-ok,
  ok-injective, trim_space, Bool-cases, inl, inr, arith,
}
use dp1_feed_v.Errors.{Error, Result, status_error, oversized_error}
use dp1_feed_v.Models.{Bytes}
use dp1_feed_v.Auth.{or_error}
use dp1_feed_v.Fetcher.{
  Url, Response, Answer, unreachable, redirected, answered, Network, HttpFetcher,
  max_fetch_redirects, validate_fetch_url, control, check_redirect, client_do, last_int64,
  read_limited, exceeds, fetch_playlist,
}

-- A chain of requests from a URL to an answer: every connection passes the dial guard, and every URL
-- behind a redirect is one that may be fetched. The number counts the redirects.
pub data Chain (net : Network) (f : HttpFetcher) : ℕ → Url → Response → Type 0 where
  arrived :
      {u : Url} {r : Response}
      → control net f (net.dialled u) ≡ ok tt
      → net.answer u ≡ answered r
      → Chain net f 0 u r
  hop :
      {n : ℕ} {u v : Url} {r : Response}
      → control net f (net.dialled u) ≡ ok tt
      → net.answer u ≡ redirected v
      → validate_fetch_url v ≡ ok tt
      → Chain net f n v r
      → Chain net f (suc n) u r

-- What is taken of an answer under a limit: the whole body where it is complete and within the limit, and
-- nothing of any body where the limit plus one is no int64. Under a negative limit nothing is accepted.
pub data Taken (limit : ℤ) (r : Response) (b : Bytes) : Type 0 where
  within :
      (max : ℕ)
      → limit ≡ pos max
      → max < last_int64
      → r.breaks ≡ false
      → length r.body ≤ max
      → r.body ≡ b
      → Taken limit r b
  nothing : (max : ℕ) → limit ≡ pos max → last_int64 ≤ max → b ≡ [] → Taken limit r b

-- A body that the feed may take from a URL.
pub record IsFetched (net : Network) (f : HttpFetcher) (uri : String) (b : Bytes) : Type 0 where
  pub url : Url
  pub redirects : ℕ
  pub response : Response
  pub parsed : net.parse_url (trim_space uri) ≡ some url
  pub fetchable : validate_fetch_url url ≡ ok tt
  pub chain : Chain net f redirects url response
  pub few_redirects : redirects < 5
  pub status : response.status_code ≡ 200
  pub taken : Taken f.max response b

or_error-eq-ok : {A : Type 0} (e : Error) (o : Option A) {a : A} → or_error e o ≡ ok a → o ≡ some a
or_error-eq-ok e none h = cc
or_error-eq-ok e (some a) h = cc

ltb-suc : (m n : ℕ) → n ≡ suc m → ltb m n ≡ true
ltb-suc m n h = ground arith

le→ltb : (m n : ℕ) → n ≤ m → ltb m n ≡ false
le→ltb m n h = ground arith

Answer-cases :
    (a : Answer)
    → (a ≡ unreachable) ⊎ (((v : Url) × (a ≡ redirected v)) ⊎ ((r : Response) × (a ≡ answered r)))
Answer-cases unreachable = inl refl
Answer-cases (redirected v) = inr (inl (v, refl))
Answer-cases (answered r) = inr (inr (r, refl))

module _ (net : Network) (f : HttpFetcher) where
  client_do-answered :
      (left : ℕ) (u : Url) (r : Response)
      → control net f (net.dialled u) ≡ ok tt
      → net.answer u ≡ answered r
      → client_do net f (suc left) u ≡ ok r
  unfolding client_do
  client_do-answered left u r guard answer = rw (guard, answer)

  client_do-redirected :
      (left : ℕ) (u v : Url)
      → control net f (net.dialled u) ≡ ok tt
      → net.answer u ≡ redirected v
      → client_do net f (suc left) u ≡ (check_redirect net left v >> client_do net f left v)
  unfolding client_do
  client_do-redirected left u v guard answer = rw (guard, answer)

  -- A chain of fewer redirects than requests may be made is followed to its answer.
  client_do-Chain :
      (n left : ℕ) (u : Url) (r : Response)
      → Chain net f n u r
      → n < left
      → client_do net f left u ≡ ok r
  unfolding check_redirect
  client_do-Chain n zero u r chain h = absurd (omega arith)
  client_do-Chain n (suc left) u r (arrived guard answer) h =
      client_do-answered left u r guard answer
  client_do-Chain n (suc zero) u r (hop guard answer valid rest) h = absurd (omega arith)
  client_do-Chain n (suc (suc left)) u r (hop {n = m} {v = v} guard answer valid rest) h =
      client_do-redirected (suc left) u v guard answer
      ∙ rw valid (client_do-Chain m (suc left) v r rest (omega arith))

  -- What is answered is at the end of such a chain.
  client_do-IsChain :
      (left : ℕ) (u : Url) (r : Response)
      → client_do net f left u ≡ ok r
      → (n : ℕ) × (n < left) × Chain net f n u r
  unfolding client_do check_redirect
  client_do-IsChain zero u r h = cc
  client_do-IsChain (suc left) u r h =
      let (guard, k) = then-eq-ok (control net f (net.dialled u)) _ h in
      elim (Answer-cases (net.answer u)) [
        | inl e ↦ (let bad = rw e at k in cc)
        | inr (inl (v, e)) ↦
            let (valid, l) = then-eq-ok (check_redirect net left v) _ (rw e at k) in
            let (n, lt, rest) = client_do-IsChain left v r l in
            (suc n, omega (arith, lt), hop guard e (check_redirect-valid left v valid) rest)
        | inr (inr (s, e)) ↦
            let same : s ≡ r = ok-injective (rw e at k) in
            (0, omega arith, arrived guard (e ∙ ap answered same))
      ]
    where
      check_redirect-valid :
          (left : ℕ) (v : Url) → check_redirect net left v ≡ ok tt → validate_fetch_url v ≡ ok tt
      check_redirect-valid zero v h = cc
      check_redirect-valid (suc left) v h = h

  -- The end of `FetchPlaylist`.
  accept : ℤ → Response → Result Bytes
  accept limit r = do
    got ← read_limited limit r
    require (not (exceeds (length got) limit)) (oversized_error ∷ [])
    ok got

  accept-eq-ok : (limit : ℤ) (r : Response) (b : Bytes) → accept limit r ≡ ok b → Taken limit r b
  unfolding accept read_limited exceeds
  accept-eq-ok (negsuc k) r b h = cc
  accept-eq-ok (pos max) r b h = elim (Bool-cases (leb last_int64 max)) [
    | inl w ↦
        let some_room : ltb max 0 ≡ false = ground arith in
        nothing max refl (ground (arith, w)) (sym (ok-injective (rw (w, some_room) at h)))
    | inr w ↦ elim (Bool-cases (ltb max (length r.body))) [
      | inl e ↦
          let full : ltb max (length (take (suc max) r.body)) ≡ true =
            ltb-suc max _ (length-take-suc max r.body (ltb→lt max (length r.body) e)) in
          let bad = rw (w, e, full) at h in cc
      | inr e ↦ elim (Bool-cases r.breaks) [
        | inl t ↦ (let bad = rw (w, e, t) at h in cc)
        | inr t ↦
            within max refl (ground (arith, w)) t (ltb→le max (length r.body) e)
              (ok-injective (rw (w, e, t, e) at h))
      ]
    ]
  ]

  accept-ok : (limit : ℤ) (r : Response) (b : Bytes) → Taken limit r b → accept limit r ≡ ok b
  unfolding accept read_limited exceeds
  accept-ok limit r b (within max at small t le same) =
      let w : leb last_int64 max ≡ false = ground arith in
      let e : ltb max (length r.body) ≡ false = le→ltb max (length r.body) le in
      rw (at, w, e, t, e) (ap ok same)
  accept-ok limit r b (nothing max at large empty) =
      let w : leb last_int64 max ≡ true = ground arith in
      let some_room : ltb max 0 ≡ false = ground arith in rw (at, w, some_room, empty) refl

  -- A fetch returns a body exactly if its URL is read and may be fetched, and a chain of at most four
  -- redirects, on which every connection passes the dial guard and every URL may be fetched, ends in an
  -- answer of status 200 whose body is complete, within the limit, and the one returned; where the limit is
  -- the largest int64, nothing of that body is read, and the one returned is empty.
  pub fetch_playlist_iff :
      (uri : String) (b : Bytes) → (fetch_playlist net f uri ≡ ok b) ↔ IsFetched net f uri b
  unfolding fetch_playlist accept
  fetch_playlist_iff uri b = (fetched, returned)
    where
      fetched : fetch_playlist net f uri ≡ ok b → IsFetched net f uri b
      fetched h =
          let (u, p, h1) = bind-eq-ok (or_error _ (net.parse_url (trim_space uri))) _ h in
          let (valid, h2) = then-eq-ok (validate_fetch_url u) _ h1 in
          let (r, c, h3) = bind-eq-ok (client_do net f max_fetch_redirects u) _ h2 in
          let (st, h4) =
            then-eq-ok (require (nat_eq r.status_code 200) (status_error r.status_code ∷ [])) _
              h3 in
          let (n, few, chain) = client_do-IsChain max_fetch_redirects u r c in
          let taken = accept-eq-ok f.max r b h4 in
          record {
            url = u;
            redirects = n;
            response = r;
            parsed = or_error-eq-ok _ (net.parse_url (trim_space uri)) p;
            fetchable = valid;
            chain = chain;
            few_redirects = few;
            status = (nat_eq_iff r.status_code 200).0 (require-eq-ok _ _ st);
            taken = taken;
          }

      returned : IsFetched net f uri b → fetch_playlist net f uri ≡ ok b
      returned w =
          rw
            (
              w.parsed,
              w.fetchable,
              client_do-Chain w.redirects max_fetch_redirects w.url w.response w.chain
                  w.few_redirects,
              (nat_eq_iff w.response.status_code 200).1 w.status,
            )
            (accept-ok f.max w.response b w.taken)
