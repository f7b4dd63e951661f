-- ===== src/Samples.antt =====
-- Concrete inputs: a float that meets the assumptions, and runs of each component.
pub mod Fixed
mod Control
mod Estimation
pub mod Perception
mod Bringup
mod Validation
mod Gate
mod Replay
mod Fault
mod Runtime
