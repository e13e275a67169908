-- ===== src/Exec/Settings.antt =====
-- The executor's settings, the circumstances of one call, and what it does round a channel-visible write.
use dp1_feed_v.Shared.{
  String, ℕ, Bool, not, ◌&&◌, List, [], take, map, err, require, ◌>>◌, if◌then◌else◌,
}
use dp1_feed_v.Errors.{Result}
use dp1_feed_v.Models.{Time, UuidValue}

-- `impl` without the services, which are arguments. `notified` says that a notification client is set. A
-- limit of 0 stands for a non-positive one, which the source takes as none.
pub record Impl : Type 0 where
  pub extensions_enabled : Bool
  pub notified : Bool
  pub intent_skew : Time
  pub public_base : String
  pub max_refs : ℕ
  pub max_resolved_bytes : ℕ

-- The clock at the points where a call reads it, the state of its context (`ctx.Err() != nil`, a
-- deadline), whether the recipient read succeeds, and how many notifications are started before the
-- delivery context ends.
pub record Call : Type 0 where
  pub now_identity : Time
  pub now_intent : Time
  pub now_sign : Time
  pub now_commit : Time
  pub canceled : Bool
  pub has_deadline : Bool
  pub listing_read : Bool
  pub enqueued : ℕ

pub data EventType : Type 0 where
  channel_added channel_updated channel_deleted : EventType

-- `notification.Event`, its channel named by id.
pub record Event : Type 0 where
  pub type : EventType
  pub channel : UuidValue

-- `runChannelMutation`
unfoldable pub run_channel_mutation {ℓ} : {A : Type ℓ} → Impl → Call → Result A → Result A
run_channel_mutation e call mutate = do
  require (not call.canceled) []
  if not e.notified then mutate else if call.has_deadline then mutate else err []

-- `runPlaylistMutation`
unfoldable pub run_playlist_mutation {ℓ} : {A : Type ℓ} → Impl → Call → Result A → Result A
unfolding run_channel_mutation
run_playlist_mutation e call mutate =
    if not e.extensions_enabled then mutate else run_channel_mutation e call mutate

abbrev pub wants_listing_channels : Impl → Bool
wants_listing_channels e = e.extensions_enabled && e.notified

-- `notifyListingChannels` and `notifyChannels`: one event for each channel, in order, until the delivery
-- context is done.
unfoldable pub notify_listing_channels : Impl → Call → List UuidValue → List Event
notify_listing_channels e call listing =
    if not e.extensions_enabled
    then []
    else if not e.notified
    then []
    else map (λ id. record { type = channel_updated; channel = id }) (take call.enqueued listing)
