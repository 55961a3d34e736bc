-- ===== src/Hos.antt =====
-- internal/domain/model/hos: the hours-of-service engine.
pub mod Specs
pub mod Clocks
pub mod Events
pub mod Rounds
pub mod Simulator
pub mod Trip
