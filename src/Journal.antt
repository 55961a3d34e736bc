-- ===== src/Journal.antt =====
-- pkg/journal: the tamper-evident log of decisions.
pub mod Record
pub mod Store
pub mod File
