-- ===== src/Models.antt =====
-- The documents and requests that the feed reads: the members of the dp1-go structs and of
-- internal/models that some code of the feed looks at, and the store's records.
use dp1_feed_v.Shared.{ℕ, String, Option, List}

abbrev pub Bytes : Type 0
Bytes = List ℕ

-- A UUID is the number that its sixteen bytes spell, so that byte order is the order of numbers.
abbrev pub UuidValue : Type 0
UuidValue = ℕ

-- An instant, counted from Go's zero `time.Time`, or a length of time, in nanoseconds.
abbrev pub Time : Type 0
Time = ℕ

-- A signature entry: `kid`, `role`, and the signature itself.
pub record Signature : Type 0 where
  pub kid : String
  pub role : String
  pub sig : String

pub record Entity : Type 0 where
  pub key : String

pub record PlaylistItem : Type 0 where
  pub id : String

pub record Playlist : Type 0 where
  pub id : String
  pub slug : String
  pub created : String
  pub items : List PlaylistItem
  pub curators : List Entity
  pub signatures : List Signature

pub record Group : Type 0 where
  pub created : String
  pub curator : String
  pub signatures : List Signature

pub record Channel : Type 0 where
  pub created : String
  pub publisher : Option Entity
  pub signatures : List Signature

pub record PlaylistRequest : Type 0 where
  pub id : Option String
  pub created : Option String
  pub slug : String
  pub items : List PlaylistItem
  pub curators : List Entity
  pub signatures : List Signature
  pub raw : Bytes

pub record GroupRequest : Type 0 where
  pub id : Option String
  pub created : Option String
  pub slug : String
  pub playlists : List String
  pub curator : String
  pub signatures : List Signature
  pub raw : Bytes

pub record ChannelRequest : Type 0 where
  pub id : Option String
  pub created : Option String
  pub slug : String
  pub playlists : List String
  pub publisher : Option Entity
  pub signatures : List Signature
  pub raw : Bytes

pub record IntentTarget : Type 0 where
  pub kind : String
  pub id : String
  pub slug : String

pub record SignedIntent : Type 0 where
  pub action : String
  pub target : IntentTarget
  pub payload_hash : String
  pub created : String
  pub signatures : List Signature
  pub raw : Bytes

-- The constants of the intent envelope.
abbrev pub action_replace : String
action_replace = "replace"

abbrev pub action_delete : String
action_delete = "delete"

abbrev pub target_playlist : String
target_playlist = "playlist"

abbrev pub target_playlist_group : String
target_playlist_group = "playlist-group"

abbrev pub target_channel : String
target_channel = "channel"

-- The signature roles of DP-1 (`playlist.RoleCurator`, `channels.RolePublisher`, `playlist.RoleFeed`).
abbrev pub role_curator : String
role_curator = "curator"

abbrev pub role_publisher : String
role_publisher = "publisher"

abbrev pub role_feed : String
role_feed = "feed"

-- A row of one of the three document tables, and the record read from it. The column of the body is JSONB: `raw`
-- is the text that a SELECT gives back for it.
pub record Row : Type 0 where
  pub id : UuidValue
  pub slug : String
  pub raw : Bytes
  pub created_at : Time
  pub updated_at : Time

-- A playlist to link, and to insert if the feed does not hold it, while a group or channel commits.
pub record IngestedPlaylist : Type 0 where
  pub id : UuidValue
  pub slug : String
  pub raw : Bytes
  pub source_uri : String
