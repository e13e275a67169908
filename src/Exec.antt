-- ===== src/Exec.antt =====
-- internal/executor/executor.go and ingest_resolve.go: the executor over the database of Store. A mutating
-- method reads the stored row, authorizes the request against what it read, and then writes in a
-- transaction of its own;
-- other requests may commit in between, so it is given the state at the read and the state at the write.
mod Settings
mod Steps
mod Playlists
mod Deletes
mod References
pub mod Groups
pub mod Channels
pub mod Resolution
pub mod Replaces
pub mod Commits
pub mod Creations
pub mod Reads
pub mod Removals
pub use Settings.{Impl, Call, Event, EventType}
unfoldable pub use Settings.{run_channel_mutation, run_playlist_mutation, notify_listing_channels}
pub use Playlists.{SignedPlaylist, Authorized}
unfoldable pub use Steps.{
  verify_owner_signatures, verify_playlist_owner_signatures, parse_validated_playlist,
  sign_and_validate_playlist,
}
unfoldable pub use Playlists.{
  create_playlist, check_replace, authorize_replace, replace_playlist, authorize_delete,
  delete_playlist,
}
unfoldable pub use Deletes.{notify_channel, delete_playlist_group, delete_channel}
pub use References.{Fetcher, Snapshots}
unfoldable pub use References.{
  playlist_api_prefix, is_local_playlist_url, local_playlist_key, origin_unavailable,
  get_playlist_by_source_uri, last_known_or, playlist_id_from_body, admit_remote, link_fetched,
  resolve_one_playlist_ref, require_uri_lengths, distinct_keys, resolved_at, resolve_each,
  resolve_playlist_uris,
}
pub use Groups.{SignedGroup, AuthorizedGroup}
unfoldable pub use Groups.{
  sign_and_validate_playlist_group, authorize_group_create, create_playlist_group,
  check_group_replace, authorize_group_replace, replace_playlist_group,
}
pub use Channels.{SignedChannel, AuthorizedChannel}
unfoldable pub use Channels.{
  sign_and_validate_channel, authorize_channel_create, create_channel, check_channel_replace,
  authorize_channel_replace, replace_channel,
}
