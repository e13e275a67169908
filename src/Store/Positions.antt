-- ===== src/Store/Positions.antt =====
-- What the membership rows of groups and channels say, position by position.
use dp1_feed_v.Shared.{
  ℕ, zero, suc, ◌+◌, ◌≡◌, ◌≢◌, refl, ◌∙◌, subst, Option, none, some, List, [], ◌∷◌, ◌++◌, map,
  get_elem?, nat_eq, if◌then◌else◌, arith, ◌&&◌,
}
use dp1_feed_v.Models.{UuidValue, IngestedPlaylist}
use dp1_feed_v.Store.Playlists.{Member}
use dp1_feed_v.Store.Containers.{members, members_of_others}

-- The playlist at a position of a group or channel.
unfoldable pub member_at : UuidValue → ℕ → List Member → Option UuidValue
member_at c i [] = none
member_at c i (m ∷ ms) =
    if nat_eq m.container c && nat_eq m.position i then some m.playlist_id else member_at c i ms

member_at-none :
    (c : UuidValue) (i : ℕ) (ms : List Member) → member_at c i (members_of_others c ms) ≡ none
unfolding member_at members_of_others
member_at-none c i [] = refl
member_at-none c i (m ∷ ms) = ground (arith, member_at-none c i ms)

member_at-other :
    (c k : UuidValue) (i : ℕ) (ms : List Member)
    → c ≢ k
    → member_at k i (members_of_others c ms) ≡ member_at k i ms
unfolding member_at members_of_others
member_at-other c k i [] n = refl
member_at-other c k i (m ∷ ms) n = ground (arith, member_at-other c k i ms n)

member_at-members :
    (c : UuidValue) (pos i : ℕ) (qs : List IngestedPlaylist) (ms : List Member)
    → ((j : ℕ) → member_at c j ms ≡ none)
    → member_at c (pos + i) (members c pos qs ++ ms) ≡ get_elem? (map (λ q. q.id) qs) i
unfolding member_at members
member_at-members c pos i [] ms none_there = none_there (pos + i)
member_at-members c pos zero (q ∷ qs) ms none_there = ground arith
member_at-members c pos (suc i) (q ∷ qs) ms none_there =
    let rest = member_at-members c (suc pos) i qs ms none_there in ground (arith, rest)

member_at-members_other :
    (c k : UuidValue) (pos i : ℕ) (qs : List IngestedPlaylist) (ms : List Member)
    → c ≢ k
    → member_at k i (members c pos qs ++ ms) ≡ member_at k i ms
unfolding member_at members
member_at-members_other c k pos i [] ms n = refl
member_at-members_other c k pos i (q ∷ qs) ms n =
    ground (arith, member_at-members_other c k (suc pos) i qs ms n)

-- The membership of one container is exactly the references in their order; no other has changed.
pub record IsRebuilt (c : UuidValue) (qs : List IngestedPlaylist) (ms ms' : List Member)
    : Type 0 where
  pub listed : (i : ℕ) → member_at c i ms' ≡ get_elem? (map (λ q. q.id) qs) i
  pub others : (k : UuidValue) (i : ℕ) → c ≢ k → member_at k i ms' ≡ member_at k i ms

pub members-IsRebuilt :
    (c : UuidValue) (qs : List IngestedPlaylist) (ms : List Member)
    → IsRebuilt c qs ms (members c 0 qs ++ members_of_others c ms)
members-IsRebuilt c qs ms = record {
  listed = λ i.
      let start : 0 + i ≡ i = omega arith in
      subst
        (λ k.
          member_at c k (members c 0 qs ++ members_of_others c ms)
          ≡ get_elem? (map (λ q. q.id) qs) i)
        start (member_at-members c 0 i qs (members_of_others c ms) (λ j. member_at-none c j ms));
  others = λ k i n.
      member_at-members_other c k 0 i qs (members_of_others c ms) n ∙ member_at-other c k i ms n;
}
