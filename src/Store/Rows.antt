-- ===== src/Store/Rows.antt =====
-- Reading a table after a write to it.
use dp1_feed_v.Shared.{
  ◌<◌, String, ◌≡◌, ◌≢◌, refl, true, false, Option, none, some, List, [], ◌∷◌, nat_eq, nat_eq_iff,
  if◌then◌else◌, arith, ok, Option-cases, Bool-cases, inl, inr, subst, sym,
}
use dp1_feed_v.Models.{Bytes, UuidValue, Time, Row}
use dp1_feed_v.Store.Tables.{
  DocTable, holds, find_id, insert_document, update_rows, next_updated_at, new_slug,
  update_document, remove_id, delete_document,
}

-- A row after the UPDATE of its id.
abbrev pub updated : Time → Bytes → Option String → Row → Row
updated now raw slug r = record r {
  slug = new_slug slug r.slug;
  raw = raw;
  updated_at = next_updated_at now r.updated_at;
}

pub find_id-update_rows_self :
    (now : Time) (id : UuidValue) (raw : Bytes) (slug : Option String) (rows : List Row) (r : Row)
    → find_id id rows ≡ some r
    → find_id id (update_rows now id raw slug rows) ≡ some (updated now raw slug r)
unfolding find_id update_rows
find_id-update_rows_self now id raw slug [] r h = cc
find_id-update_rows_self now id raw slug (s ∷ rows) r h =
    ground (arith, find_id-update_rows_self now id raw slug rows r)

pub find_id-update_rows_ne :
    (now : Time) (id j : UuidValue) (raw : Bytes) (slug : Option String) (rows : List Row)
    → id ≢ j
    → find_id j (update_rows now id raw slug rows) ≡ find_id j rows
unfolding find_id update_rows
find_id-update_rows_ne now id j raw slug [] n = refl
find_id-update_rows_ne now id j raw slug (s ∷ rows) n =
    ground (arith, find_id-update_rows_ne now id j raw slug rows n)

find_id-update_rows-none :
    (now : Time) (id j : UuidValue) (raw : Bytes) (slug : Option String) (rows : List Row)
    → find_id j rows ≡ none
    → find_id j (update_rows now id raw slug rows) ≡ none
unfolding find_id update_rows
find_id-update_rows-none now id j raw slug [] h = refl
find_id-update_rows-none now id j raw slug (s ∷ rows) h =
    ground (arith, find_id-update_rows-none now id j raw slug rows)

find_id-remove_id-none :
    (id j : UuidValue) (rows : List Row)
    → find_id j rows ≡ none
    → find_id j (remove_id id rows) ≡ none
unfolding find_id remove_id
find_id-remove_id-none id j [] h = refl
find_id-remove_id-none id j (s ∷ rows) h = ground (arith, find_id-remove_id-none id j rows)

pub find_id-remove_id_self :
    (id : UuidValue) (rows : List Row) → find_id id (remove_id id rows) ≡ none
unfolding find_id remove_id
find_id-remove_id_self id [] = refl
find_id-remove_id_self id (s ∷ rows) = ground (arith, find_id-remove_id_self id rows)

pub find_id-remove_id_ne :
    (id j : UuidValue) (rows : List Row) → id ≢ j → find_id j (remove_id id rows) ≡ find_id j rows
unfolding find_id remove_id
find_id-remove_id_ne id j [] n = refl
find_id-remove_id_ne id j (s ∷ rows) n = ground (arith, find_id-remove_id_ne id j rows n)

pub find_id-id : (id : UuidValue) (rows : List Row) (r : Row) → find_id id rows ≡ some r → r.id ≡ id
unfolding find_id
find_id-id id [] r h = cc
find_id-id id (s ∷ rows) r h = ground (arith, find_id-id id rows r)

-- What a conditional update found and did: the row was there in the generation that the caller read.
pub update_document_lem :
    (now : Time) (id : UuidValue) (raw : Bytes) (slug : Option String) (expected : Time)
    (t t' : DocTable)
    → update_document now id raw slug expected t ≡ ok t'
    → (r : Row) × (find_id id t.rows ≡ some r)
      × (r.updated_at ≡ expected)
      × (t' ≡ record t { rows = update_rows now id raw slug t.rows })
unfolding update_document
update_document_lem now id raw slug expected t t' h = elim (Option-cases (find_id id t.rows)) [
  | inl gone ↦ absurd (ground (arith, gone))
  | inr (r, found) ↦ (r, found, ground (arith, found), ground (arith, found))
]

pub delete_document_lem :
    (id : UuidValue) (expected : Time) (t t' : DocTable)
    → delete_document id expected t ≡ ok t'
    → (r : Row) × (find_id id t.rows ≡ some r)
      × (r.updated_at ≡ expected)
      × (t' ≡ record {
        rows = remove_id id t.rows;
        deleted = if holds id t.deleted then t.deleted else id ∷ t.deleted;
      })
unfolding delete_document
delete_document_lem id expected t t' h = elim (Option-cases (find_id id t.rows)) [
  | inl gone ↦ absurd (ground (arith, gone))
  | inr (r, found) ↦ (r, found, ground (arith, found), ground (arith, found))
]

pub insert_document_lem :
    (t t' : DocTable) (r : Row)
    → insert_document t r ≡ ok t'
    → (holds r.id t.deleted ≡ false)
      × (find_id r.id t.rows ≡ none)
      × (t' ≡ record t { rows = r ∷ t.rows })
unfolding insert_document
insert_document_lem t t' r h = (ground arith, ground arith, ground arith)

-- No id is both live and retired.
pub record IsRetired (t : DocTable) : Type 0 where
  pub gone : (id : UuidValue) → holds id t.deleted ≡ true → find_id id t.rows ≡ none

pub update_document-IsRetired :
    (now : Time) (id : UuidValue) (raw : Bytes) (slug : Option String) (expected : Time)
    (t t' : DocTable)
    → IsRetired t
    → update_document now id raw slug expected t ≡ ok t'
    → IsRetired t'
update_document-IsRetired now id raw slug expected t t' v h =
    let (r, found, same, out) = update_document_lem now id raw slug expected t t' h in
    rw out (record {
      gone = λ j held. find_id-update_rows-none now id j raw slug t.rows (v.gone j held);
    })

pub insert_document-IsRetired :
    (t t' : DocTable) (r : Row) → IsRetired t → insert_document t r ≡ ok t' → IsRetired t'
unfolding find_id
insert_document-IsRetired t t' r v h =
    let (live, free, out) = insert_document_lem t t' r h in
    rw out (record { gone = λ j held. ground (arith, v.gone j) })

pub delete_document-IsRetired :
    (id : UuidValue) (expected : Time) (t t' : DocTable)
    → IsRetired t
    → delete_document id expected t ≡ ok t'
    → IsRetired t'
unfolding holds
delete_document-IsRetired id expected t t' v h =
    let (r, found, same, out) = delete_document_lem id expected t t' h in
    rw out (record {
      gone = λ j held. elim (Bool-cases (nat_eq id j)) [
        | inl e ↦ rw (← (nat_eq_iff id j).0 e) (find_id-remove_id_self id t.rows)
        | inr n ↦ find_id-remove_id-none id j t.rows (v.gone j (ground arith))
      ];
    })

-- A write of the row of an id: the row was in the expected generation and has the new bytes in a strictly
-- later one, and every other row and every tombstone is as it was.
pub record IsRewritten (id : UuidValue) (raw : Bytes) (expected : Time) (t t' : DocTable)
    : Type 0 where
  pub before : Row
  pub found : find_id id t.rows ≡ some before
  pub generation : before.updated_at ≡ expected
  pub current : Row
  pub stored : find_id id t'.rows ≡ some current
  pub bytes : current.raw ≡ raw
  pub strictly_later : expected < current.updated_at
  pub same_creation : current.created_at ≡ before.created_at
  pub others : (j : UuidValue) → id ≢ j → find_id j t'.rows ≡ find_id j t.rows
  pub same_tombstones : t'.deleted ≡ t.deleted

pub update_document-IsRewritten :
    (now : Time) (id : UuidValue) (raw : Bytes) (slug : Option String) (expected : Time)
    (t t' : DocTable)
    → update_document now id raw slug expected t ≡ ok t'
    → IsRewritten id raw expected t t'
unfolding next_updated_at
update_document-IsRewritten now id raw slug expected t t' h =
    let (r, at, gen, out) = update_document_lem now id raw slug expected t t' h in
    subst (IsRewritten id raw expected t) (sym out) (record {
      before = r;
      found = at;
      generation = gen;
      current = updated now raw slug r;
      stored = find_id-update_rows_self now id raw slug t.rows r at;
      bytes = refl;
      strictly_later = ground arith;
      same_creation = refl;
      others = λ j n. find_id-update_rows_ne now id j raw slug t.rows n;
      same_tombstones = refl;
    })

-- A delete of the row of an id: the row was in the expected generation and is gone, its id is retired,
-- and every other row is as it was.
pub record IsErased (id : UuidValue) (expected : Time) (t t' : DocTable) : Type 0 where
  pub before : Row
  pub found : find_id id t.rows ≡ some before
  pub generation : before.updated_at ≡ expected
  pub gone : find_id id t'.rows ≡ none
  pub tombstone : holds id t'.deleted ≡ true
  pub others : (j : UuidValue) → id ≢ j → find_id j t'.rows ≡ find_id j t.rows

held :
    (id : UuidValue) (ids : List UuidValue)
    → holds id (if holds id ids then ids else id ∷ ids) ≡ true
unfolding holds
held id ids = ground (arith, nat_eq_iff id id)

pub delete_document-IsErased :
    (id : UuidValue) (expected : Time) (t t' : DocTable)
    → delete_document id expected t ≡ ok t'
    → IsErased id expected t t'
delete_document-IsErased id expected t t' h =
    let (r, at, gen, out) = delete_document_lem id expected t t' h in
    subst (IsErased id expected t) (sym out) (record {
      before = r;
      found = at;
      generation = gen;
      gone = find_id-remove_id_self id t.rows;
      tombstone = held id t.deleted;
      others = λ j n. find_id-remove_id_ne id j t.rows n;
    })
