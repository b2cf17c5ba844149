-- ===== src/Tests.antt =====
-- Runs of the models at concrete inputs.
pub mod Tables
pub mod Rules
pub mod Frames
pub mod Switch
pub mod Messages
pub mod Created
pub mod Delivery
