-- ===== src/Config.antt =====
-- internal/config/config.go: the settings with their defaults, the overrides from the environment, and the
-- checks that a configuration must pass before the server starts.
pub mod Integers
pub mod Settings
pub mod Environment
pub mod Checks
pub mod Loading
pub mod Laws
