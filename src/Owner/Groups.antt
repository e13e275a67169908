-- ===== src/Owner/Groups.antt =====
-- A group's owner, before and after the feed has co-signed the document.
use dp1_feed_v.Shared.{
  String, ◌≡◌, ◌≢◌, refl, sym, ◌∙◌, inl, inr, true, false, ◌&&◌, List, [], ◌∷◌, ◌++◌, ◌==◌, eq_iff,
  Bool-cases, trim_space, arith, ok, if◌then◌else◌,
}
use dp1_feed_v.Models.{Signature, Group, role_curator, role_feed}
use dp1_feed_v.Dp1svc.{without_prior, merge_signatures}
use dp1_feed_v.Owner.Keys.{
  KeySet, has, add_key, owner_set, role_signers, client_signers, client_signer_key_set,
}
use dp1_feed_v.Owner.Sets.{singleton_of}
use dp1_feed_v.Owner.Rules.{
  legacy_group_owner, require_group_curator_consistent, stored_group_owner_set,
  require_unambiguous_owner,
}

other_role :
    (new : Signature) (role : String) (s : Signature)
    → new.role ≢ role
    → (s.kid == new.kid && s.role == new.role) ≡ true
    → (s.role == role) ≡ false
other_role new role s n same = ground (arith, eq_iff s.role new.role, eq_iff s.role role)

same_role :
    (new s : Signature) (role : String)
    → new.role ≡ role
    → (s.kid == new.kid && s.role == new.role) ≡ true
    → (s.role == role) ≡ true
same_role new s role e same = ground (arith, eq_iff s.role new.role, eq_iff s.role role)

-- Dropping the feed's earlier entry and adding a new one changes no signer in another role.
role_signers-without_prior :
    (new : Signature) (role : String) (set : KeySet) (sigs : List Signature)
    → new.role ≢ role
    → role_signers role set (without_prior new sigs) ≡ role_signers role set sigs
unfolding role_signers without_prior
role_signers-without_prior new role set [] n = refl
role_signers-without_prior new role set (s ∷ sigs) n =
    elim (Bool-cases (s.kid == new.kid && s.role == new.role)) [
      | inl same ↦
          rw same
            (rw (other_role new role s n same) (role_signers-without_prior new role set sigs n))
      | inr kept ↦ rw kept (
          role_signers-without_prior new role (if s.role == role then add_key s.kid set else set)
            sigs n)
    ]

role_signers-append_other :
    (new : Signature) (role : String) (set : KeySet) (sigs : List Signature)
    → new.role ≢ role
    → role_signers role set (sigs ++ new ∷ []) ≡ role_signers role set sigs
unfolding role_signers
role_signers-append_other new role set [] n = ground (arith, eq_iff new.role role)
role_signers-append_other new role set (s ∷ sigs) n =
    role_signers-append_other new role (if s.role == role then add_key s.kid set else set) sigs n

client_signers-without_prior :
    (new : Signature) (set : KeySet) (sigs : List Signature)
    → new.role ≡ role_feed
    → client_signers set (without_prior new sigs) ≡ client_signers set sigs
unfolding client_signers without_prior
client_signers-without_prior new set [] e = refl
client_signers-without_prior new set (s ∷ sigs) e =
    elim (Bool-cases (s.kid == new.kid && s.role == new.role)) [
      | inl same ↦
          rw same
            (rw (same_role new s role_feed e same) (client_signers-without_prior new set sigs e))
      | inr kept ↦ rw kept (
          client_signers-without_prior new (if s.role == role_feed then set else add_key s.kid set)
            sigs e)
    ]

client_signers-append_feed :
    (new : Signature) (set : KeySet) (sigs : List Signature)
    → new.role ≡ role_feed
    → client_signers set (sigs ++ new ∷ []) ≡ client_signers set sigs
unfolding client_signers
client_signers-append_feed new set [] e = ground (arith, eq_iff new.role role_feed)
client_signers-append_feed new set (s ∷ sigs) e =
    client_signers-append_feed new (if s.role == role_feed then set else add_key s.kid set) sigs e

feed_ne_curator : role_feed ≢ role_curator
feed_ne_curator = ground (arith, eq_iff role_feed role_curator)

owner_set-merge :
    (new : Signature) (role : String) (sigs : List Signature)
    → new.role ≢ role
    → owner_set [] role (merge_signatures sigs new) ≡ owner_set [] role sigs
unfolding owner_set merge_signatures
owner_set-merge new role sigs n =
    role_signers-append_other new role [] (without_prior new sigs) n
    ∙ role_signers-without_prior new role [] sigs n

client_signer_key_set-merge :
    (new : Signature) (sigs : List Signature)
    → new.role ≡ role_feed
    → client_signer_key_set (merge_signatures sigs new) ≡ client_signer_key_set sigs
unfolding client_signer_key_set merge_signatures
client_signer_key_set-merge new sigs e =
    client_signers-append_feed new [] (without_prior new sigs) e
    ∙ client_signers-without_prior new [] sigs e

-- One signer in the role, if the shape rule accepts an undeclared document that has one.
pub sole_owner :
    (role : String) (sigs : List Signature) (k : String)
    → require_unambiguous_owner [] role sigs ≡ ok tt
    → has (owner_set [] role sigs) k ≡ true
    → owner_set [] role sigs ≡ k ∷ []
unfolding require_unambiguous_owner
sole_owner role sigs k u h = singleton_of (owner_set [] role sigs) k (ground arith) h

pub owner_set-merge_feed :
    (new : Signature) (sigs : List Signature)
    → new.role ≡ role_feed
    → owner_set [] role_curator (merge_signatures sigs new) ≡ owner_set [] role_curator sigs
owner_set-merge_feed new sigs e =
    owner_set-merge new role_curator sigs (λ p. feed_ne_curator (sym e ∙ p))

require_group_curator_consistent-merge :
    (curator : String) (new : Signature) (sigs : List Signature)
    → new.role ≡ role_feed
    → require_group_curator_consistent curator (merge_signatures sigs new)
      ≡ require_group_curator_consistent curator sigs
unfolding require_group_curator_consistent
require_group_curator_consistent-merge curator new sigs e =
    rw (client_signer_key_set-merge new sigs e, owner_set-merge_feed new sigs e)

-- The stored resolution and the submission rule agree about one and the same trimmed curator name.
resolve_owner :
    (g : Group) (k : String)
    → owner_set [] role_curator g.signatures ≡ k ∷ []
    → require_group_curator_consistent g.curator g.signatures ≡ ok tt
    → stored_group_owner_set g ≡ ok (k ∷ [])
unfolding stored_group_owner_set legacy_group_owner require_group_curator_consistent has
resolve_owner g k e h =
    ground (arith, e, eq_iff (trim_space g.curator) k, eq_iff k (trim_space g.curator))

-- A group that the feed accepts, whose one curator-role signer is `k`, is owned by `k` alone once it is
-- stored with the feed's own entry in its signatures, whatever the group's curator name says.
pub stored_group_owner_set-merge :
    (g : Group) (new : Signature) (k : String)
    → new.role ≡ role_feed
    → require_unambiguous_owner [] role_curator g.signatures ≡ ok tt
    → require_group_curator_consistent g.curator g.signatures ≡ ok tt
    → has (owner_set [] role_curator g.signatures) k ≡ true
    → stored_group_owner_set (record g { signatures = merge_signatures g.signatures new })
      ≡ ok (k ∷ [])
stored_group_owner_set-merge g new k e u c h =
    resolve_owner (record g { signatures = merge_signatures g.signatures new }) k
      (owner_set-merge_feed new g.signatures e ∙ sole_owner role_curator g.signatures k u h)
      (require_group_curator_consistent-merge g.curator new g.signatures e ∙ c)
