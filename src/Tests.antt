-- ===== src/Tests.antt =====
-- Runs of the theorems at concrete inputs.
mod Data
mod Codec
mod Timeline
mod Fault
mod Redaction
mod EventBus
mod Agent
mod Replay
mod Redis
mod Adapters
mod Api
mod Proxy
mod Config
mod Storage
mod Cli
