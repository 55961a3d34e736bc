-- ===== src/Dispatch.antt =====
-- internal/domain/rules, internal/domain/model/feasibility and internal/domain/policy: which driver
-- takes which load.
pub mod Rules
pub mod Arcs
pub mod Costs
pub mod Evaluations
pub mod Matcher
