-- ===== src/Coordinate.antt =====
-- worker/src/coordinate/: the dispatch logic of one issue or PR.
pub mod DeriveState
pub mod LabelEffects
pub mod ReadBack
pub mod Types
pub mod Steps
pub mod Storage
pub mod Apply
pub mod MergeGate
pub mod ReviewGate
pub mod OutcomeDedupe
pub mod Release
pub mod Stages
pub mod Rework
pub mod Reviewing
pub mod Events
pub mod Webhook
pub mod Recovery
pub mod Watchdog
pub mod RoutineSignal
pub mod Reconcile
pub mod Sweep
pub mod Preserve
pub mod Armed
pub mod Requests
pub mod Yields
pub mod Renewal
pub mod Signals
pub mod BlockedOnce
pub mod Fires
pub mod Rounds
pub mod ReviewRounds
pub mod Expiry
pub mod Dedupe
pub mod Shadow
pub mod Redelivery
