-- ===== src/Owner/Sets.antt =====
-- Membership in the sets of Owner.Keys: each set-building loop as a test on the members it reads.
use dp1_feed_v.Shared.{
  ◌≤◌, String, ◌≡◌, inl, inr, Bool, true, not, ◌&&◌, ◌||◌, List, [], ◌∷◌, any, length, ◌==◌, eq_iff,
  Bool-cases, trim_space, arith,
}
use dp1_feed_v.Models.{Signature, role_feed}
use dp1_feed_v.Owner.Keys.{KeySet, has, add_key, role_signers, client_signers}

-- Every key of the first set is in the second.
abbrev pub Subset : KeySet → KeySet → Type 0
Subset a b = (k : String) → has a k ≡ true → has b k ≡ true

abbrev pub names_key : String → String → Bool
names_key k s = trim_space s == k && not (k == "")

-- The entry carries the key, in the role.
abbrev pub signs_as : String → String → Signature → Bool
signs_as role k s = s.role == role && names_key k s.kid

pub has-add_key :
    (s : String) (set : KeySet) (k : String) → has (add_key s set) k ≡ (names_key k s || has set k)
unfolding has add_key
has-add_key s set k = ground (arith, eq_iff (trim_space s) "", eq_iff (trim_space s) k, eq_iff k "")

pub has-role_signers :
    (role : String) (set : KeySet) (sigs : List Signature) (k : String)
    → has (role_signers role set sigs) k ≡ (has set k || any (signs_as role k) sigs)
unfolding role_signers
has-role_signers role set [] k = ground arith
has-role_signers role set (s ∷ sigs) k = elim (Bool-cases (s.role == role)) [
  | inl e ↦
      rw e
        (ground (arith, has-role_signers role (add_key s.kid set) sigs k, has-add_key s.kid set k))
  | inr e ↦ rw e (has-role_signers role set sigs k)
]

pub has-client_signers :
    (set : KeySet) (sigs : List Signature) (k : String)
    → has (client_signers set sigs) k
      ≡ (has set k || any (λ s. not (s.role == role_feed) && names_key k s.kid) sigs)
unfolding client_signers
has-client_signers set [] k = ground arith
has-client_signers set (s ∷ sigs) k = elim (Bool-cases (s.role == role_feed)) [
  | inl e ↦ rw e (has-client_signers set sigs k)
  | inr e ↦
      rw e (ground (arith, has-client_signers (add_key s.kid set) sigs k, has-add_key s.kid set k))
]

-- A set of at most one key.
pub unique_key :
    (set : KeySet) (a b : String) → length set ≤ 1 → has set a ≡ true → has set b ≡ true → a ≡ b
unfolding has
unique_key [] a b l h k = cc
unique_key (j ∷ []) a b l h k = ground (arith, eq_iff j a, eq_iff j b)
unique_key (i ∷ j ∷ set) a b l h k = absurd (omega arith)

-- A set of at most one key, one of whose keys is known, is that key alone.
pub singleton_of : (set : KeySet) (k : String) → length set ≤ 1 → has set k ≡ true → set ≡ k ∷ []
unfolding has
singleton_of [] k l h = cc
singleton_of (j ∷ []) k l h = ground (arith, eq_iff j k)
singleton_of (i ∷ j ∷ set) k l h = absurd (omega arith)
