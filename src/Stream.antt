-- ===== src/Stream.antt =====
-- internal/adapter/stream: the buffer between the telemetry and tender feeds and the planner.
pub mod Validation
pub mod Buffer
pub mod Synchronizer
