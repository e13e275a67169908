-- ===== src/Logger/Shutdown.antt =====
-- The shutdown of the stream sender: how many requests it makes, and that it comes to an end.
mod Cost
mod Drain
mod Ending
mod Requests
pub use Drain.{pending}
pub use Ending.{close_terminates}
pub use Requests.{drain_requests, default_drain_requests, HasDefaults}
