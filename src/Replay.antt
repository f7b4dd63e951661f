-- ===== src/Replay.antt =====
-- The external replay of src/go2_validation: the pinned source, its acquisition, and the choice of
-- the interval that is converted.
pub mod Contract
pub mod Manifest
pub mod Window
pub mod Files
pub mod Download
pub mod Acquire
