-- ===== src/Config/Laws.antt =====
-- What the start of the server can rely on.
pub mod Valid
pub mod Timeouts
pub mod Variables
pub mod Loads
