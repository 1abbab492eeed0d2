-- ===== src/Config.antt =====
-- internal/config/config.go: the configurations of the supervisor and of the agent, their defaults,
-- and loading. The TOML parser is in Config/Toml.antt.
-- `json` and `read` stand for encoding/json and os.ReadFile.
pub mod Defs
pub mod Values
pub mod Toml
pub mod Load
pub mod Defaults
pub mod Lines
pub mod Orphans
