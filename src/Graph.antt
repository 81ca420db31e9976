-- ===== src/Graph.antt =====
-- graph/: the pure part of the orchestrator, the transition table and the functions around it.
pub mod Label
pub mod Event
pub mod Routine
pub mod Table
pub mod Reduce
pub mod Equality
pub mod Order
pub mod Json
pub mod Lifecycle
pub mod GateLaws
pub mod RoundTrip
pub mod Outcome
pub mod Gate
pub mod Signal
pub mod Translate
pub mod ClosingRefs
