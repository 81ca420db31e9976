-- ===== src/Intake.antt =====
-- What reaches the Worker: worker/src/webhook-parse.ts and worker/src/index.ts.
pub mod Signature
pub mod SignatureExact
pub mod Parse
pub mod FrontDoor
pub mod Guarded
