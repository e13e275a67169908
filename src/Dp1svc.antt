-- ===== src/Dp1svc.antt =====
-- internal/dp1svc/dp1svc.go: the feed's signing key, its own entry in a document's signatures, and the
-- signing of a document.
mod Merging
pub mod Keys
pub mod Signing
unfoldable pub use Merging.{without_prior, merge_signatures}
