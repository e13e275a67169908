-- ===== src/Exec/Resolution/Keys.antt =====
-- The distinct references of a document.
use dp1_feed_v.Shared.{
  ℕ, zero, suc, String, ◌≡◌, refl, subst, true, false, ◌||◌, some, List, [], ◌∷◌, map, get_elem?,
  ◌==◌, eq_iff, Bool-cases, inl, inr, arith, trim_space,
}
use dp1_feed_v.Exec.References.{key_in, distinct_keys}

pub distinct_keys-covers :
    (seen us : List String) (i : ℕ) (u : String)
    → get_elem? us i ≡ some u
    → (key_in (trim_space u) seen || key_in (trim_space u) (distinct_keys seen us)) ≡ true
unfolding distinct_keys
distinct_keys-covers seen [] i u h = cc
distinct_keys-covers seen (v ∷ us) zero u h =
    let same : v ≡ u = ground (arith, h) in
    elim (Bool-cases (key_in (trim_space v) seen)) [
      | inl e ↦
          subst
            (λ w.
              (key_in (trim_space w) seen || key_in (trim_space w) (distinct_keys seen (v ∷ us)))
              ≡ true)
            same (rw e refl)
      | inr n ↦
          subst
            (λ w.
              (key_in (trim_space w) seen || key_in (trim_space w) (distinct_keys seen (v ∷ us)))
              ≡ true)
            same (ground (arith, n, eq_iff (trim_space v) (trim_space v)))
    ]
distinct_keys-covers seen (v ∷ us) (suc i) u h = elim (Bool-cases (key_in (trim_space v) seen)) [
  | inl e ↦ rw (e, distinct_keys) (distinct_keys-covers seen us i u h)
  | inr n ↦
      rw (n, distinct_keys) (ground (arith, distinct_keys-covers (trim_space v ∷ seen) us i u h))
]

-- No reference twice.
abbrev pub Unique : List String → Type 0
Unique [] = Unit
Unique (k ∷ keys) = (key_in k keys ≡ false) × Unique keys

distinct_keys-seen :
    (seen us : List String) (k : String)
    → key_in k seen ≡ true
    → key_in k (distinct_keys seen us) ≡ false
unfolding distinct_keys
distinct_keys-seen seen [] k h = refl
distinct_keys-seen seen (u ∷ us) k h = elim (Bool-cases (key_in (trim_space u) seen)) [
  | inl e ↦ rw (e, distinct_keys) (distinct_keys-seen seen us k h)
  | inr n ↦ elim (Bool-cases (trim_space u == k)) [
    | inl same ↦
        let bad : key_in (trim_space u) seen ≡ true = rw ((eq_iff (trim_space u) k).0 same) h in cc
    | inr other ↦
        rw (n, distinct_keys, other) (distinct_keys-seen (trim_space u ∷ seen) us k (rw other h))
  ]
]

pub distinct_keys-Unique : (seen us : List String) → Unique (distinct_keys seen us)
unfolding distinct_keys
distinct_keys-Unique seen [] = tt
distinct_keys-Unique seen (u ∷ us) = elim (Bool-cases (key_in (trim_space u) seen)) [
  | inl e ↦ rw (e, distinct_keys) (distinct_keys-Unique seen us)
  | inr n ↦
      rw (n, distinct_keys)
        (
          distinct_keys-seen (trim_space u ∷ seen) us (trim_space u)
              (rw ((eq_iff (trim_space u) (trim_space u)).1 refl) refl),
          distinct_keys-Unique (trim_space u ∷ seen) us,
        )
]

-- A reference that is listed has a place in the list.
pub place_of :
    (k : String) (keys : List String) → key_in k keys ≡ true → (n : ℕ) × (get_elem? keys n ≡ some k)
place_of k [] h = cc
place_of k (j ∷ keys) h = elim (Bool-cases (j == k)) [
  | inl e ↦ (0, rw ((eq_iff j k).0 e) refl)
  | inr e ↦ let (n, at) = place_of k keys (ground (arith, e)) in (suc n, at)
]

pub listed_at :
    (k : String) (keys : List String) (n : ℕ) → get_elem? keys n ≡ some k → key_in k keys ≡ true
listed_at k [] n at = cc
listed_at k (j ∷ keys) zero at =
    let same : j ≡ k = ground (arith, at) in rw ((eq_iff j k).1 same) refl
listed_at k (j ∷ keys) (suc n) at = elim (Bool-cases (j == k)) [
  | inl e ↦ rw e refl
  | inr e ↦ rw e (listed_at k keys n at)
]

-- Every reference of the list was asked for.
pub distinct_keys-asked :
    (seen us : List String) (k : String)
    → key_in k (distinct_keys seen us) ≡ true
    → key_in k (map trim_space us) ≡ true
unfolding distinct_keys
distinct_keys-asked seen [] k h = cc
distinct_keys-asked seen (u ∷ us) k h = elim (Bool-cases (trim_space u == k)) [
  | inl e ↦ rw e refl
  | inr e ↦ elim (Bool-cases (key_in (trim_space u) seen)) [
    | inl s ↦ rw e (distinct_keys-asked seen us k (rw (s, distinct_keys) at h))
    | inr s ↦ rw e (distinct_keys-asked (trim_space u ∷ seen) us k (rw (s, distinct_keys, e) at h))
  ]
]
