-- ===== src/Adapters/Redis.antt =====
-- internal/adapters/redis/adapter.go: the lines of MONITOR and the events made of them. A line is
-- its bytes.
pub mod Parse
pub mod Monitor
pub mod Lifecycle
use localcloud.Base.{Bytes, List}
use localcloud.Timeline.{Time}

pub record MonitorEntry : Type 0 where
  pub timestamp : Time
  pub command : Bytes
  pub args : List Bytes
  pub key : Bytes
