-- ===== src/Numeric.antt =====
-- pkg/math: the generator of random numbers, and the solver of assignment problems.
pub mod Rng
pub mod Lap
