-- ===== src/Timeline.antt =====
-- internal/timeline: the models and events that the other packages exchange.
mod Json
mod Models
mod Event
pub mod Validation
unfoldable pub use Json.*
pub use Models.*
unfoldable pub use Event.*
