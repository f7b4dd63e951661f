-- ===== src/Control.antt =====
-- The package src/go2_control: limits on motion commands, their Sport requests, the adapter node
-- and the recorder of a trial.
pub mod Motion
pub mod SportRequest
pub mod Adapter
pub mod Trial
