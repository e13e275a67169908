-- ===== src/Http.antt =====
-- internal/httpserver: what a request is answered when the executor or the store refuses it.
mod Mapping
pub mod Statuses
pub mod Queries
pub mod Conditional
pub mod Members
pub mod Gate
pub mod Writes
pub mod Flows
pub mod Strict
pub use Mapping.{HttpError}
unfoldable pub use Mapping.{map_store_error, map_executor_error}
