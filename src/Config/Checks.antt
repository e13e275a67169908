-- ===== src/Config/Checks.antt =====
-- internal/config/config.go, `validate`: the checks in the order of the code, and the texts that it trims.
pub mod Parts
pub mod Sound
