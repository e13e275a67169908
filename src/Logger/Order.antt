-- ===== src/Logger/Order.antt =====
-- The order of records through the stream sender, from admission to the requests that carry them, and what
-- the answers of `flush` and `close` say about them.
mod Worker
mod Delivery
mod Flushing
mod Lifetime
unfoldable pub use Worker.{delivered, Succeeded}
pub use Delivery.{InOrder, Run-InOrder, start-InOrder, close-records, run_in_order}
unfoldable pub use Lifetime.{leaving}
pub use Lifetime.{
  Lifecycle-of, Run-Lifecycle, Lifecycle, stopped_of, enqueue_closed, close-keeps, stopped_delivers,
}
pub use Flushing.{IsAnswered, flush-IsAnswered}
