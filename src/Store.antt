-- ===== src/Store.antt =====
-- internal/store/pg/store.go: the tables, and the transactions on playlists. Each function is one
-- transaction: it is given the state before it and the instant that `now()` has in it, and an error
-- leaves the state as it was (the deferred rollback). The advisory locks make two transactions on one id
-- run one after the other, which is the order in which they are applied here.
mod Tables
mod Playlists
mod Ingest
mod Containers
pub mod Rows
pub mod Writes
pub mod History
pub mod Links
pub mod Positions
pub mod Creations
pub mod Keyset
pub mod Cursors
pub mod Lists
pub mod Updates
pub use Tables.{DocTable}
pub use Playlists.{ItemRow, Member, Source, Db, PlaylistRecord}
pub use Containers.{ContainerInput, GroupRecord, ChannelRecord}
unfoldable pub use Ingest.{
  unique_playlist_params, insert_missing_rows, record_playlist_sources,
  insert_missing_playlists_batch,
}
unfoldable pub use Containers.{
  members, members_of_others, find_document, get_playlist_group, get_channel, create_playlist_group,
  update_playlist_group, delete_playlist_group, create_channel, update_channel, delete_channel,
}
unfoldable pub use Tables.{
  holds, insert_row, require_not_tombstoned, find_id, find_slug, insert_document, update_rows,
  next_updated_at, slug_taken, remove_id, update_document, delete_document,
}
unfoldable pub use Playlists.{
  find_listed, item_rows, items_elsewhere, members_elsewhere, sources_elsewhere, channels_listing,
  resolve_document_id, get_playlist, create_playlist, update_playlist, delete_playlist,
}
