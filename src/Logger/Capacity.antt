-- ===== src/Logger/Capacity.antt =====
-- The bounds of the stream sender: what a batch, a request and the queue hold in every state of a run.
mod Worker
mod Sender
mod Positive
pub use Worker.{
  IsSendable, IsPositive, WorkerBounds, append_record-WorkerBounds, flush-WorkerBounds,
}
pub use Sender.{
  held, enqueue_cases, SystemBounds, Work-SystemBounds, Call-SystemBounds, start-SystemBounds,
  Run-SystemBounds, run_bounds, QueueBounds, SenderBounds, Fits,
}
pub use Positive.{new_stream_options-IsPositive}
