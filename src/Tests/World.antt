-- ===== src/Tests/World.antt =====
-- A small world: two signers, a stored playlist, a replacement of it, the intents that name it, and
-- stand-ins for the libraries that answer for exactly these texts.
use dp1_feed_v.Shared.{
  zero, suc, ◌≡◌, refl, String, true, false, Option, none, some, [], ◌∷◌, ◌==◌, nat_eq, filter, not,
  if◌then◌else◌, ok,
}
use Prim.Native.Char.{Char, code}
use Prim.Native.String.{[], ◌∷◌}
use dp1_feed_v.Models.{
  Group, Channel, Bytes, UuidValue, Time, Signature, Entity, PlaylistItem, Playlist,
  PlaylistRequest, SignedIntent, Row, action_replace, action_delete, target_playlist,
}
use dp1_feed_v.Platform.{Platform, ValidatorSigner}
use dp1_feed_v.Store.{Db, PlaylistRecord}
use dp1_feed_v.Exec.{Impl, Call}

abbrev pub alice : Signature
alice = record { kid = "did:alice"; role = "curator"; sig = "a" }

abbrev pub bob : Signature
bob = record { kid = "did:bob"; role = "curator"; sig = "b" }

abbrev pub feed : Signature
feed = record { kid = "did:feed"; role = "feed"; sig = "f" }

abbrev pub alice_key : Entity
alice_key = record { key = " did:alice" }

abbrev pub bob_key : Entity
bob_key = record { key = "did:bob" }

abbrev pub item : PlaylistItem
item = record { id = "7" }

abbrev pub stored_playlist : Playlist
stored_playlist = record {
  id = "77";
  slug = "mornings";
  created = "t0";
  items = item ∷ [];
  curators = alice_key ∷ [];
  signatures = alice ∷ feed ∷ [];
}

abbrev pub new_playlist : Playlist
new_playlist = record {
  id = "77";
  slug = "mornings";
  created = "t0";
  items = item ∷ [];
  curators = alice_key ∷ bob_key ∷ [];
  signatures = alice ∷ bob ∷ feed ∷ [];
}

abbrev pub alice_group : Group
alice_group = record { created = "t0"; curator = "Alice & co"; signatures = alice ∷ feed ∷ [] }

abbrev pub alice_channel : Channel
alice_channel = record { created = "t0"; publisher = some alice_key; signatures = feed ∷ [] }

-- Bytes that begin with 1 are the stored playlist, and other bytes the new one.
abbrev decode : Bytes → Option Playlist
decode [] = none
decode (b ∷ raw) = if nat_eq b 1 then some stored_playlist else some new_playlist

abbrev seven : Char
seven = "7"

-- The UUID of a number is a text of that many sevens.
unfoldable pub sevens : UuidValue → String
sevens zero = []
sevens (suc n) = seven ∷ sevens n

unfoldable pub count_sevens : String → Option UuidValue
count_sevens [] = some 0
count_sevens (c ∷ s) =
    let rest = count_sevens s in
    if nat_eq (code c) b'7' then elim rest [ none ↦ none | some n ↦ some (suc n) ] else none

pub count_sevens-sevens : (id : UuidValue) → count_sevens (sevens id) ≡ some id
unfolding sevens count_sevens
count_sevens-sevens zero = refl
count_sevens-sevens (suc n) = rw (count_sevens-sevens n)

abbrev read_time : String → Option Time
read_time s = if s == "t0" then some 100 else if s == "t1" then some 900 else none

abbrev pub libraries : Platform
libraries = record {
  parse_uuid = count_sevens;
  show_uuid = sevens;
  parse_rfc3339 = read_time;
  parse_rfc3339_nano = read_time;
  declares_payload_hash = λ raw. some false;
  decode_playlist = decode;
  decode_group = λ raw. some alice_group;
  decode_channel = λ raw. some alice_channel;
  body_id = λ raw. some "77";
  body_slug = λ raw. some "mornings";
  jsonb_text = λ raw. filter (λ b. not (nat_eq b 32)) raw;
  is_listed = λ raw. true;
  curators_hold = λ raw key. key == "did:alice";
  body_curator = λ raw. some "Alice & co";
  body_publisher_key = λ raw. some "did:alice";
  cast_uuid = count_sevens;
  body_item_ids = λ raw. some "7" ∷ [];
}

-- Every signature verifies, and the feed's co-signature is a byte in front.
abbrev pub dp1 : ValidatorSigner
dp1 = record {
  verify_playlist_signatures = λ raw. ok (true, []);
  verify_playlist_group_signatures = λ raw. ok (true, []);
  verify_channel_signatures = λ raw. ok (true, []);
  verify_signatures = λ raw. ok (true, []);
  sign_playlist = λ raw ts. ok (5 ∷ raw);
  sign_playlist_group = λ raw ts. ok (5 ∷ raw);
  sign_channel = λ raw ts. ok (5 ∷ raw);
  validate_playlist = λ raw. ok (some new_playlist);
  validate_playlist_with_extension = λ raw. ok (some new_playlist);
  validate_playlist_group = λ raw. ok (some alice_group);
  validate_channel = λ raw. ok (some alice_channel);
  payload_hash = λ raw. ok "sha256:ab";
}

abbrev pub stored_row : Row
stored_row = record { id = 2; slug = "mornings"; raw = 1 ∷ []; created_at = 100; updated_at = 100 }

abbrev pub stored_record : PlaylistRecord
stored_record = record { row = stored_row; body = stored_playlist }

abbrev pub one_playlist : Db
one_playlist = record {
  playlists = record { rows = stored_row ∷ []; deleted = [] };
  groups = record { rows = []; deleted = [] };
  channels = record { rows = []; deleted = [] };
  items = [];
  group_members = [];
  channel_members = record { container = 9; playlist_id = 2; position = 0 } ∷ [];
  sources = [];
}

abbrev pub settings : Impl
settings = record {
  extensions_enabled = true;
  notified = true;
  intent_skew = 0;
  public_base = "https://feed.example/";
  max_refs = 3;
  max_resolved_bytes = 10;
}

abbrev pub call : Call
call = record {
  now_identity = 950;
  now_intent = 950;
  now_sign = 950;
  now_commit = 1000;
  canceled = false;
  has_deadline = true;
  listing_read = true;
  enqueued = 5;
}

abbrev pub request : PlaylistRequest
request = record {
  id = some "77";
  created = some "t0";
  slug = "mornings";
  items = item ∷ [];
  curators = alice_key ∷ bob_key ∷ [];
  signatures = alice ∷ bob ∷ [];
  raw = 2 ∷ [];
}

abbrev pub replace_intent : SignedIntent
replace_intent = record {
  action = action_replace;
  target = record { kind = target_playlist; id = " 77 "; slug = "mornings" };
  payload_hash = "SHA256:AB";
  created = "t1";
  signatures = alice ∷ [];
  raw = 3 ∷ [];
}

abbrev pub delete_intent : SignedIntent
delete_intent = record {
  action = action_delete;
  target = record { kind = target_playlist; id = "77"; slug = "mornings" };
  payload_hash = "";
  created = "t1";
  signatures = alice ∷ [];
  raw = 4 ∷ [];
}
