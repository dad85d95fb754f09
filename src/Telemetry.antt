-- ===== src/Telemetry.antt =====
-- platform/telemetry: log records, the filter on them, and the hub that limits how many are passed on.
pub mod Record
pub mod Filter
pub mod Wire
pub mod Show
pub mod Gateway
pub mod TeeLogger
pub mod SafeLogHub
pub mod Examples
