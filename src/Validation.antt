-- ===== src/Validation.antt =====
-- The package src/go2_validation: what it measures during a mapping run, how it judges the run, the
-- fault fixture with the verdict on a fault, and the waits of the runners.
pub mod TfContinuity
pub mod Pose
pub mod PoseContinuity
pub mod CloudAccounting
pub mod Acceptance
pub mod BoundedWait
pub mod ScanQuality
pub mod FaultFixture
pub mod FaultCapture
pub mod FixtureNode
pub mod FaultAcceptance
