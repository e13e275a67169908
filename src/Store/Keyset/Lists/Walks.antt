-- ===== src/Store/Keyset/Lists/Walks.antt =====
-- A client that follows the tokens of a keyset list reads every row behind its boundary, each once and
-- in the order of the list.
use dp1_feed_v.Shared.{
  ℕ, zero, suc, ◌≡◌, ◌<◌, ◌≤◌, ◌-◌, refl, sym, ap, ◌∙◌, subst, String, Bool, true, false, ◌==◌,
  Option, none, some, List, [], ◌∷◌, ◌++◌, ok, bind-eq-ok, ok-injective, length, take, drop,
  get_elem?, all, ltb, Bool-cases, inl, inr, ltb→lt, ltb→le, arith, take-append-drop, get_elem?_lt,
  length-drop_lt, all-filter, all-get_elem?,
}
use dp1_feed_v.Errors.{Result}
use dp1_feed_v.Auth.{or_error}
use dp1_feed_v.Store.Keyset.{SortOrder, Key, past, order_by, select_rows}
use dp1_feed_v.Store.Keyset.Order.{IsDistinct, all-order_by}
use dp1_feed_v.Store.Keyset.Pages.{remaining, remaining-page, page_of-last, page_of-more, suc-pred}
use dp1_feed_v.Store.Keyset.Lists.{read_rows, keyset_page, list_page, follow_pages}

module _ {X B : Type 0} (read : X → Option B) where
  pub read_rows-cons :
      (x : X) (xs : List X) (out : List (X × B))
      → read_rows read (x ∷ xs) ≡ ok out
      → (b : B) × (rest : List (X × B)) × (read x ≡ some b)
        × (read_rows read xs ≡ ok rest)
        × ((x, b) ∷ rest ≡ out)
  unfolding read_rows
  read_rows-cons x xs out h =
      let (b, g, h1) = bind-eq-ok (or_error [] (read x)) _ h in
      let (rest, k, h2) = bind-eq-ok (read_rows read xs) _ h1 in
      (b, rest, or_error_some (read x) g, k, ok-injective h2)
    where
      or_error_some : (o : Option B) {a : B} → or_error [] o ≡ ok a → o ≡ some a
      or_error_some none h = cc
      or_error_some (some b) h = cc

  length-read_rows :
      (xs : List X) (out : List (X × B)) → read_rows read xs ≡ ok out → length out ≡ length xs
  unfolding read_rows
  length-read_rows [] out h = ap length (sym (ok-injective h))
  length-read_rows (x ∷ xs) out h =
      let (b, rest, _, k, e) = read_rows-cons x xs out h in
      sym (ap length e) ∙ ap suc (length-read_rows xs rest k)

  read_rows-take :
      (n : ℕ) (xs : List X) (out : List (X × B))
      → read_rows read xs ≡ ok out
      → read_rows read (take n xs) ≡ ok (take n out)
  unfolding read_rows
  read_rows-take zero xs out h = refl
  read_rows-take (suc n) [] out h = ap (λ (o : List (X × B)). ok (take (suc n) o)) (ok-injective h)
  read_rows-take (suc n) (x ∷ xs) out h =
      let (b, rest, g, k, e) = read_rows-cons x xs out h in
      rw (g, read_rows-take n xs rest k) (ap (λ (o : List (X × B)). ok (take (suc n) o)) e)

  read_rows-drop :
      (n : ℕ) (xs : List X) (out : List (X × B))
      → read_rows read xs ≡ ok out
      → read_rows read (drop n xs) ≡ ok (drop n out)
  unfolding read_rows
  read_rows-drop zero xs out h = h
  read_rows-drop (suc n) [] out h = ap (λ (o : List (X × B)). ok (drop (suc n) o)) (ok-injective h)
  read_rows-drop (suc n) (x ∷ xs) out h =
      let (b, rest, g, k, e) = read_rows-cons x xs out h in
      read_rows-drop n xs rest k ∙ ap (λ (o : List (X × B)). ok (drop (suc n) o)) e

  get_elem?-read_rows :
      (i : ℕ) (xs : List X) (out : List (X × B)) (x : X)
      → read_rows read xs ≡ ok out
      → get_elem? xs i ≡ some x
      → (b : B) × (get_elem? out i ≡ some (x, b))
  unfolding read_rows
  get_elem?-read_rows i [] out x h m = cc
  get_elem?-read_rows zero (y ∷ xs) out x h m =
      let (b, rest, g, k, e) = read_rows-cons y xs out h in
      (b, ap (λ (o : List (X × B)). get_elem? o 0) (sym e) ∙ ap (with_body b) m)
    where
      with_body : B → Option X → Option (X × B)
      with_body b none = none
      with_body b (some z) = some (z, b)
  get_elem?-read_rows (suc i) (y ∷ xs) out x h m =
      let (b, rest, g, k, e) = read_rows-cons y xs out h in
      let (b', l) = get_elem?-read_rows i xs rest x k m in
      (b', ap (λ (o : List (X × B)). get_elem? o (suc i)) (sym e) ∙ l)

follow_pages-more :
    {A : Type 0} (get : String → Result (List A × String)) (fuel : ℕ) (cursor next : String)
    (xs ys : List A)
    → get cursor ≡ ok (xs, next)
    → (next == "") ≡ false
    → follow_pages get fuel next ≡ ok ys
    → follow_pages get (suc fuel) cursor ≡ ok (xs ++ ys)
unfolding follow_pages
follow_pages-more get fuel cursor next xs ys g n f = rw (g, n, f, follow_pages)

follow_pages-last :
    {A : Type 0} (get : String → Result (List A × String)) (fuel : ℕ) (cursor : String)
    (xs : List A)
    → get cursor ≡ ok (xs, "")
    → follow_pages get (suc fuel) cursor ≡ ok xs
unfolding follow_pages
follow_pages-last get fuel cursor xs g = rw (g, follow_pages)

module _ {X B : Type 0} (key : X → Key) (read : X → Option B) (token : X → String) (o : SortOrder)
    (boundary : String → Result (Option Key)) (in_range : X → Bool)
    (token-boundary : (x : X)
      → in_range x ≡ true
      → ((token x == "") ≡ false) × (boundary (token x) ≡ ok (some (key x)))) where
  in_range-remaining :
      (rows : List X) (b : Option Key) (i : ℕ) (x : X)
      → all in_range rows ≡ true
      → get_elem? (remaining key o rows b) i ≡ some x
      → in_range x ≡ true
  in_range-remaining rows b i x h m =
      all-get_elem? in_range (remaining key o rows b) i x
        (all-filter in_range (past key o b) (order_by key o rows)
          (all-order_by key o in_range rows ∙ h))
        m

  -- The last page.
  keyset_page-last :
      (limit : ℕ) (rows : List X) (b : Option Key) (out : List (X × B))
      → read_rows read (remaining key o rows b) ≡ ok out
      → length (remaining key o rows b) ≤ limit
      → keyset_page key read token o limit b rows ≡ ok (out, "")
  unfolding keyset_page select_rows
  keyset_page-last limit rows b out h le =
      let r = remaining key o rows b in
      rw (
        read_rows-take read (suc limit) r out h,
        page_of-last limit out
            (subst (λ (n : ℕ). n ≤ limit) (sym (length-read_rows read r out h)) le),
      )

  -- A page before the last.
  keyset_page-more :
      (limit : ℕ) (rows : List X) (b : Option Key) (out : List (X × B)) (x : X)
      → read_rows read (remaining key o rows b) ≡ ok out
      → 0 < limit
      → limit < length (remaining key o rows b)
      → get_elem? (remaining key o rows b) (limit - 1) ≡ some x
      → keyset_page key read token o limit b rows ≡ ok (take limit out, token x)
  unfolding keyset_page select_rows
  keyset_page-more limit rows b out x h l more m =
      let r = remaining key o rows b in
      let (body, last) = get_elem?-read_rows read (limit - 1) r out x h m in
      rw (
        read_rows-take read (suc limit) r out h,
        page_of-more limit out l
            (subst (λ (n : ℕ). limit < n) (sym (length-read_rows read r out h)) more),
        last,
      )

  pub follow_pages-page :
      (fuel limit : ℕ) (rows : List X) (cursor : String) (b : Option Key) (out : List (X × B))
      → 0 < limit
      → IsDistinct key rows
      → all in_range rows ≡ true
      → boundary cursor ≡ ok b
      → length (remaining key o rows b) < fuel
      → read_rows read (remaining key o rows b) ≡ ok out
      → follow_pages (list_page key read token o boundary limit rows) fuel cursor ≡ ok out
  unfolding list_page
  follow_pages-page zero limit rows cursor b out l d v c f h = absurd (omega arith)
  follow_pages-page (suc fuel) limit rows cursor b out l d v c f h =
      let r = remaining key o rows b in
      let get = list_page key read token o boundary limit rows in
      elim (Bool-cases (ltb limit (length r))) [
        | inl gt ↦
            let more = ltb→lt limit (length r) gt in
            let last = get_elem?_lt r (limit - 1) (omega (arith, more)) in
            let (nonempty, next) =
              token-boundary last.0 (in_range-remaining rows b (limit - 1) last.0 v last.1) in
            let rest =
              remaining-page key o rows b (limit - 1) last.0 d last.1
              ∙ ap (λ (n : ℕ). drop n r) (suc-pred limit l) in
            let again =
              follow_pages-page fuel limit rows (token last.0) (some (key last.0)) (drop limit out)
                l d v next (omega (arith, ap length rest, length-drop_lt limit r l more))
                (ap (read_rows read) rest ∙ read_rows-drop read limit r out h) in
            follow_pages-more get fuel cursor (token last.0) (take limit out) (drop limit out)
              (rw c (keyset_page-more limit rows b out last.0 h l more last.1)) nonempty again
            ∙ ap ok (take-append-drop limit out)
        | inr le ↦
            follow_pages-last get fuel cursor out
              (rw c (keyset_page-last limit rows b out h (ltb→le limit (length r) le)))
      ]
