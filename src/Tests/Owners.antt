-- ===== src/Tests/Owners.antt =====
-- The rules on owners and on intents, at the signers of the small world.
use dp1_feed_v.Shared.{
  String, ◌≡◌, ◌≢◌, refl, ◌↔◌, true, false, some, List, [], ◌∷◌, ok, trim_space,
}
use dp1_feed_v.Models.{Group, role_curator, action_replace, target_playlist}
use dp1_feed_v.Dp1svc.{merge_signatures}
use dp1_feed_v.Owner.{
  add_key, client_signer_key_set, client_signers, has, missing_from, owner_set,
  require_group_curator_consistent, require_new_owner_consent, require_regime_transition_consent,
  require_unambiguous_owner, role_signers, stored_group_owner_set, unsigned_owners,
}
use dp1_feed_v.Owner.Groups.{stored_group_owner_set-merge}
use dp1_feed_v.Auth.{verify_intent}
use dp1_feed_v.Auth.Laws.{Authorizes, verify_intent_iff}
use dp1_feed_v.Tests.World.{alice, bob, feed, libraries, dp1, replace_intent}

abbrev alice_submission : Group
alice_submission = record { created = "t0"; curator = "Alice & co"; signatures = alice ∷ [] }

alice_group_consistent : require_group_curator_consistent "Alice & co" (alice ∷ []) ≡ ok tt
unfolding require_group_curator_consistent trim_space client_signer_key_set client_signers add_key
    has
alice_group_consistent = refl

alice_unambiguous : require_unambiguous_owner [] role_curator (alice ∷ []) ≡ ok tt
unfolding require_unambiguous_owner owner_set role_signers add_key has trim_space
alice_unambiguous = refl

alice_signs : has (owner_set [] role_curator (alice ∷ [])) "did:alice" ≡ true
unfolding owner_set role_signers add_key has trim_space
alice_signs = refl

stored_group_owner_set-merge_example :
    stored_group_owner_set
      (record alice_submission { signatures = merge_signatures alice_submission.signatures feed })
    ≡ ok ("did:alice" ∷ [])
stored_group_owner_set-merge_example =
    stored_group_owner_set-merge alice_submission feed "did:alice" refl alice_unambiguous
      alice_group_consistent alice_signs

bob_consents :
    require_new_owner_consent
      ("did:alice" ∷ [])
      ("did:bob" ∷ "did:alice" ∷ [])
      role_curator
      (alice ∷ bob ∷ [])
    ≡ ok tt
unfolding require_new_owner_consent unsigned_owners has owner_set role_signers add_key trim_space
bob_consents = refl

bob_is_new : has ("did:alice" ∷ []) "did:bob" ≡ false
unfolding has
bob_is_new = refl

bob_is_named : has ("did:bob" ∷ "did:alice" ∷ []) "did:bob" ≡ true
unfolding has
bob_is_named = refl

some_declared : (◌≢◌ {A = List String} ("did:bob" ∷ []) [])
some_declared e = cc

alice_consents :
    require_regime_transition_consent []
      ("did:bob" ∷ [])
      ("did:alice" ∷ [])
      role_curator
      (alice ∷ bob ∷ [])
    ≡ ok tt
unfolding require_regime_transition_consent missing_from has owner_set role_signers add_key
    trim_space
alice_consents = refl

alice_was_owner : has ("did:alice" ∷ []) "did:alice" ≡ true
unfolding has
alice_was_owner = refl

verify_intent_iff_example :
    (verify_intent libraries dp1 0 950
        (some replace_intent)
        action_replace
        target_playlist
        2
        "mornings"
        ("did:alice" ∷ [])
        role_curator
        (2 ∷ [])
      ≡ ok tt)
    ↔ Authorizes libraries dp1 0 950 replace_intent action_replace target_playlist 2 "mornings"
        ("did:alice" ∷ [])
        role_curator
        (2 ∷ [])
verify_intent_iff_example =
    verify_intent_iff libraries dp1 0 950 replace_intent action_replace target_playlist 2 "mornings"
      ("did:alice" ∷ []) role_curator (2 ∷ [])
