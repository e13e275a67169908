-- ===== src/Logger.antt =====
-- internal/logger: the bounded sender that batches log records for a remote stream, as a system of
-- producers and one delivery goroutine.
pub mod Records
pub mod Options
pub mod Sender
pub mod Worker
pub mod Run
pub mod Capacity
pub mod Order
pub mod Shutdown
