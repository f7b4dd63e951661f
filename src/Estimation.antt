-- ===== src/Estimation.antt =====
-- The package src/go2_state_estimation: the checks on odometry samples, the continuity profiles and
-- the state that follows faults, and the odometry adapter node.
pub mod Profile
pub mod Contract
pub mod Continuity
pub mod Adapter
