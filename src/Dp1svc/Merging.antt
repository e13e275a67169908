-- ===== src/Dp1svc/Merging.antt =====
-- internal/dp1svc/dp1svc.go: the feed's own entry in a document's signatures.
use dp1_feed_v.Shared.{◌&&◌, List, [], ◌∷◌, ◌++◌, ◌==◌, if◌then◌else◌}
use dp1_feed_v.Models.{Signature}

-- The loop of `mergeSignaturesReplacingPriorFeedSig`: the entries with the new entry's kid and role go.
unfoldable pub without_prior : Signature → List Signature → List Signature
without_prior new [] = []
without_prior new (s ∷ sigs) =
    let rest = without_prior new sigs in
    if s.kid == new.kid && s.role == new.role then rest else s ∷ rest

unfoldable pub merge_signatures : List Signature → Signature → List Signature
merge_signatures sigs new = without_prior new sigs ++ new ∷ []
