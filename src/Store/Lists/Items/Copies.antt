-- ===== src/Store/Lists/Items/Copies.antt =====
-- Which of the copies of an item `GetPlaylistItem` answers with.
use dp1_feed_v.Shared.{
  ◌≡◌, refl, sym, ap, ◌∙◌, subst, Bool, true, not, ◌&&◌, ◌||◌, Option, List, [], ◌∷◌, ok, err,
  ◌>>=◌, all, all_mono, filter, nat_eq, and-left, bind-eq-ok, ok-injective, arith,
}
use dp1_feed_v.Errors.{Result, not_found}
use dp1_feed_v.Auth.{or_error}
use dp1_feed_v.Models.{UuidValue}
use dp1_feed_v.Platform.{Platform}
use dp1_feed_v.Store.Playlists.{Db, ItemRow}
use dp1_feed_v.Store.Keyset.{ascending, order_by, Key, key_eq, precedes}
use dp1_feed_v.Store.Keyset.Order.{IsDistinct, IsStrict, all-order_by, order_by-IsStrict}
use dp1_feed_v.Store.Lists.Items.{copy_key, in_listed_playlist, get_playlist_item}

all-filter_self : {A : Type 0} (q : A → Bool) (xs : List A) → all q (filter q xs) ≡ true
all-filter_self q [] = refl
all-filter_self q (x ∷ xs) = ground (arith, all-filter_self q xs)

all-filter_back :
    {A : Type 0} (q keep : A → Bool) (xs : List A)
    → all q (filter keep xs) ≡ true
    → all (λ x. not (keep x) || q x) xs ≡ true
all-filter_back q keep [] h = refl
all-filter_back q keep (x ∷ xs) h = ground (arith, all-filter_back q keep xs)

key_eq_refl : (k : Key) → key_eq k k ≡ true
unfolding key_eq
key_eq_refl k = ground arith

-- The second copy is the first one or comes after it, by the time and id of their playlists.
unfoldable pub not_older : ItemRow → ItemRow → Bool
not_older i j = key_eq (copy_key i) (copy_key j) || precedes ascending (copy_key i) (copy_key j)

or-right : (a b : Bool) → b ≡ true → (a || b) ≡ true
or-right a b h = ground arith

-- The listed copies of an item.
unfoldable pub is_listed_copy : Platform → UuidValue → Db → ItemRow → Bool
is_listed_copy p id db j = nat_eq j.item_id id && in_listed_playlist p db.playlists.rows j

module _ {Item : Type 0} (p : Platform) (decode_item : ItemRow → Option Item) where
  -- The answer of the query that takes the first row.
  first : List ItemRow → Result (ItemRow × Item)
  first [] = err (not_found ∷ [])
  first (j ∷ rest) = do a ← or_error [] (decode_item j); ok (j, a)

  first-all :
      (keep : ItemRow → Bool) (rows : List ItemRow) (i : ItemRow) (b : Item)
      → all keep rows ≡ true
      → IsStrict copy_key ascending rows
      → first rows ≡ ok (i, b)
      → (keep i ≡ true) × (all (not_older i) rows ≡ true)
  unfolding first not_older
  first-all keep [] i b a s h = cc
  first-all keep (j ∷ rows) i b a s h =
      let (c, g, e) = bind-eq-ok (or_error [] (decode_item j)) _ h in
      let same : j ≡ i = ap (λ (x : ItemRow × Item). x.0) (ok-injective e) in
      let later =
        all_mono (λ k. precedes ascending (copy_key j) (copy_key k)) (not_older j) rows
          (λ k q. or-right (key_eq (copy_key j) (copy_key k)) _ q) s.0 in
      subst (λ (x : ItemRow). (keep x ≡ true) × (all (not_older x) (j ∷ rows) ≡ true)) same
        (and-left (keep j) (all keep rows) a, rw (key_eq_refl (copy_key j)) later)

  -- Where the listed copies of an item differ in the time or id of their playlists, the one that
  -- `GetPlaylistItem` answers with has the id that was asked for, belongs to a listed playlist, and no
  -- listed copy of that id is in an older playlist.
  pub get_playlist_item_oldest :
      (id : UuidValue) (db : Db) (i : ItemRow) (b : Item)
      → IsDistinct copy_key (filter (is_listed_copy p id db) db.items)
      → get_playlist_item p decode_item id db ≡ ok (i, b)
      → (is_listed_copy p id db i ≡ true)
        × (all (λ j. not (is_listed_copy p id db j) || not_older i j) db.items ≡ true)
  unfolding get_playlist_item first is_listed_copy
  get_playlist_item_oldest id db i b d h =
      let keep = is_listed_copy p id db in
      let copies = filter keep db.items in
      let (listed, oldest) =
        first-all keep (order_by copy_key ascending copies) i b
          (all-order_by copy_key ascending keep copies ∙ all-filter_self keep db.items)
          (order_by-IsStrict copy_key ascending copies d) h in
      (
        listed,
        all-filter_back (not_older i) keep db.items
            (sym (all-order_by copy_key ascending (not_older i) copies) ∙ oldest),
      )
