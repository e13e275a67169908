-- ===== src/Tests/Channels.antt =====
-- A channel and a group that are relisted: one reference to the stored playlist, under forged bytes, and
-- one to a playlist that is new here.
use dp1_feed_v.Shared.{◌≡◌, refl, some, [], ◌∷◌, ok}
use dp1_feed_v.Models.{Row, IngestedPlaylist}
use dp1_feed_v.Store
use dp1_feed_v.Store.{
  Db, ContainerInput, find_id, find_slug, holds, insert_missing_playlists_batch,
  insert_missing_rows, item_rows, members, members_of_others, next_updated_at,
  record_playlist_sources, resolve_document_id, slug_taken, unique_playlist_params, update_document,
  update_rows,
}
use dp1_feed_v.Store.Updates.{IsRelisted, update_channel-IsRelisted}
use dp1_feed_v.Tests.World.{libraries, one_playlist, stored_row, count_sevens}

abbrev pub forged : IngestedPlaylist
forged = record { id = 2; slug = "stolen"; raw = 8 ∷ []; source_uri = "https://other.example/p" }

abbrev pub fresh : IngestedPlaylist
fresh = record { id = 4; slug = "evenings"; raw = 6 ∷ []; source_uri = "" }

abbrev pub radio : Row
radio = record { id = 9; slug = "radio"; raw = 7 ∷ []; created_at = 100; updated_at = 200 }

abbrev pub relisting : ContainerInput
relisting = record { id = 0; slug = ""; raw = 7 ∷ 7 ∷ []; playlists = fresh ∷ forged ∷ [] }

abbrev pub with_channel : Db
with_channel = record one_playlist { channels = record { rows = radio ∷ []; deleted = [] } }

abbrev with_group : Db
with_group = record one_playlist { groups = record { rows = radio ∷ []; deleted = [] } }

abbrev pub relisted_row : Row
relisted_row = record radio { slug = "mornings"; raw = 7 ∷ 7 ∷ []; updated_at = 1000 }

abbrev pub linked : Db
linked = record one_playlist {
  playlists = record {
    rows =
        record { id = 4; slug = "evenings"; raw = 6 ∷ []; created_at = 1000; updated_at = 1000 }
        ∷ stored_row
        ∷ [];
    deleted = [];
  };
  items = record { item_id = 1; playlist_id = 4; playlist_created_at = 1000; position = 0 } ∷ [];
  sources = record { uri = "https://other.example/p"; playlist_id = 2 } ∷ [];
}

abbrev pub channel_relisted : Db
channel_relisted = record linked {
  channels = record { rows = relisted_row ∷ []; deleted = [] };
  channel_members =
      record { container = 9; playlist_id = 4; position = 0 }
      ∷ record { container = 9; playlist_id = 2; position = 1 }
      ∷ [];
}

abbrev group_relisted : Db
group_relisted = record linked {
  groups = record { rows = relisted_row ∷ []; deleted = [] };
  group_members =
      record { container = 9; playlist_id = 4; position = 0 }
      ∷ record { container = 9; playlist_id = 2; position = 1 }
      ∷ [];
}

pub named_by_nine : libraries.parse_uuid "777777777" ≡ some 9
unfolding count_sevens
named_by_nine = refl

pub relist_channel :
    Store.update_channel libraries 1000 "777777777" relisting 200 with_channel ≡ ok channel_relisted
unfolding Store.update_channel resolve_document_id insert_missing_playlists_batch
    unique_playlist_params holds insert_missing_rows find_id find_slug item_rows
    record_playlist_sources update_document slug_taken update_rows next_updated_at members
    members_of_others count_sevens
relist_channel = refl

relist_group :
    Store.update_playlist_group libraries 1000 "777777777" relisting 200 with_group
    ≡ ok group_relisted
unfolding Store.update_playlist_group resolve_document_id insert_missing_playlists_batch
    unique_playlist_params holds insert_missing_rows find_id find_slug item_rows
    record_playlist_sources update_document slug_taken update_rows next_updated_at members
    members_of_others count_sevens
relist_group = refl

update_channel-IsRelisted_example :
    IsRelisted libraries 9 relisting 200 with_channel.channels channel_relisted.channels
      with_channel.channel_members channel_relisted.channel_members with_channel.playlists
      channel_relisted.playlists
update_channel-IsRelisted_example =
    update_channel-IsRelisted libraries 1000 "777777777" 9 relisting 200 with_channel
      channel_relisted named_by_nine relist_channel
