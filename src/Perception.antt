-- ===== src/Perception.antt =====
-- The package src/go2_perception: the mapping cloud gate, the retry queue, the cloud window, the
-- accumulator node, the obstacle candidates and the scan projection profiles.
pub mod Message
pub mod RetryQueue
pub mod Window
pub mod Accumulator
pub mod Gate
pub mod Candidates
pub mod ScanProfile
