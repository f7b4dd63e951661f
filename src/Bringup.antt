-- ===== src/Bringup.antt =====
-- The package src/bringup: the preflight statistics of a topic with their verdict, the execution
-- modes, the owners of TF edges and the fault scenarios.
pub mod Topic
pub mod Metrics
pub mod Mode
pub mod FaultContract
pub mod TfOwners
