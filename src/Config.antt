-- ===== src/Config.antt =====
-- internal/config/config.go: the configuration, its defaults and its validation. YAML is outside
-- the repository's code: a `Config` is what it decodes.
mod Models
pub mod Checks
pub mod Defaults
pub mod Samples
pub use Models.*
