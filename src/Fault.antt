-- ===== src/Fault.antt =====
-- internal/fault: the matcher of fault rules and the engine that applies them.
pub mod Matcher
pub mod Engine
