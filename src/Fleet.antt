-- ===== src/Fleet.antt =====
-- internal/domain/model: the drivers and loads of the network, and what an action does to them.
pub mod Resource
pub mod Config
pub mod Equipment
pub mod Action
pub mod Transition
