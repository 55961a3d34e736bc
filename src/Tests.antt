-- ===== src/Tests.antt =====
-- Concrete runs: the properties at inputs that exercise the code.
mod HosTests
mod JournalTests
mod StreamTests
mod FleetTests
mod SyncTests
mod NumericTests
mod DispatchTests
mod Exact
mod LapTests
mod MatcherTests
mod Small
