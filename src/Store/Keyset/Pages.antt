-- ===== src/Store/Keyset/Pages.antt =====
-- Walking through a list page by page, each page behind the last row of the one before.
use dp1_feed_v.Shared.{
  ℕ, zero, suc, ◌≡◌, ◌≤◌, ◌<◌, ◌-◌, refl, sym, ap, ◌∙◌, true, Option, none, some, List, [], ◌++◌,
  filter, get_elem?, drop, take, length, Bool-cases, inl, inr, ltb, arith, ltb→lt, ltb→le,
  filter-filter, filter-get_elem?, take-append-drop, take_all, take-take-suc, get_elem?-take,
  get_elem?_lt, length-drop_lt, length-take-suc,
}
use mathlib.Core.List.{append-nil}
use dp1_feed_v.Store.Keyset.{SortOrder, Key, past, page_of, order_by, select_rows}
use dp1_feed_v.Store.Keyset.Order.{
  IsDistinct, precedes_trans, filter-IsStrict, filter-past, order_by-IsStrict,
}

pub suc-pred : (n : ℕ) → 0 < n → suc (n - 1) ≡ n
suc-pred n l = omega arith

pub page_of-last {ℓ} :
    {A : Type ℓ} (limit : ℕ) (rows : List A)
    → length rows ≤ limit
    → page_of limit (take (suc limit) rows) ≡ (rows, none)
unfolding page_of
page_of-last limit rows h = rw (take_all (suc limit) rows (omega arith)) (ground arith)

pub page_of-more {ℓ} :
    {A : Type ℓ} (limit : ℕ) (rows : List A)
    → 0 < limit
    → limit < length rows
    → page_of limit (take (suc limit) rows) ≡ (take limit rows, get_elem? rows (limit - 1))
unfolding page_of
page_of-more limit rows l h =
    rw
      (
        length-take-suc limit rows h,
        take-take-suc limit rows,
        get_elem?-take (suc limit) (limit - 1) rows (omega arith),
      )
      (ground arith)

module _ {ℓ} {A : Type ℓ} (key : A → Key) (o : SortOrder) where
  -- What remains behind a boundary.
  abbrev pub remaining : List A → Option Key → List A
  remaining rows b = filter (past key o b) (order_by key o rows)

  -- The pages of a client that passes each page's cursor on until there is none.
  unfoldable pub walk : ℕ → ℕ → List A → Option Key → List A
  walk zero limit rows b = []
  walk (suc fuel) limit rows b =
      let page = page_of limit (select_rows key o (suc limit) b rows) in
      page.0 ++ elim (page.1) [ none ↦ [] | some r ↦ walk fuel limit rows (some (key r)) ]

  past_trans :
      (b : Option Key) (r x : A)
      → past key o b r ≡ true
      → past key o (some (key r)) x ≡ true
      → past key o b x ≡ true
  unfolding past
  past_trans none r x h k = refl
  past_trans (some c) r x h k = precedes_trans o c (key r) (key x) h k

  -- Behind the last row of a full page stand exactly the rows that the page left.
  pub remaining-page :
      (rows : List A) (b : Option Key) (i : ℕ) (r : A)
      → IsDistinct key rows
      → get_elem? (remaining rows b) i ≡ some r
      → remaining rows (some (key r)) ≡ drop (suc i) (remaining rows b)
  unfolding past
  remaining-page rows b i r d h =
      sym (
        filter-filter (past key o (some (key r))) (past key o b) (order_by key o rows)
          (λ x. past_trans b r x (filter-get_elem? (past key o b) (order_by key o rows) i r h)))
      ∙ filter-past key o (remaining rows b) i r
          (filter-IsStrict key o (past key o b) (order_by key o rows)
            (order_by-IsStrict key o rows d))
          h

  -- With a positive limit and distinct keys, a client that has fuel for more pages than rows remain
  -- sees every row behind its boundary, each once and in order, and no other.
  pub walk-eq-remaining :
      (fuel limit : ℕ) (rows : List A) (b : Option Key)
      → 0 < limit
      → IsDistinct key rows
      → length (remaining rows b) < fuel
      → walk fuel limit rows b ≡ remaining rows b
  unfolding walk select_rows
  walk-eq-remaining zero limit rows b l d f = absurd (omega arith)
  walk-eq-remaining (suc fuel) limit rows b l d f =
      let r = remaining rows b in
      elim (Bool-cases (ltb limit (length r))) [
        | inl gt ↦
            let more = ltb→lt limit (length r) gt in
            let last = get_elem?_lt r (limit - 1) (omega (arith, more)) in
            let rest =
              remaining-page rows b (limit - 1) last.0 d last.1
              ∙ ap (λ (n : ℕ). drop n r) (suc-pred limit l) in
            let fewer = length-drop_lt limit r l more in
            let again =
              walk-eq-remaining fuel limit rows (some (key last.0)) l d
                (omega (arith, ap length rest, fewer)) in
            rw (page_of-more limit r l more, last.1)
              (ap (take limit r ++◌) (again ∙ rest) ∙ take-append-drop limit r)
        | inr le ↦ rw (page_of-last limit r (ltb→le limit (length r) le)) (append-nil r)
      ]
