-- ===== src/Tests.antt =====
-- Concrete states and runs: one application for each theorem with hypotheses.
pub mod Sample
pub mod Schedule
pub mod Record
pub mod Devices
pub mod Ticks
pub mod Image
pub mod Pointer
pub mod Pages
pub mod Disk
pub mod Files
pub mod Replays
pub mod Opened
pub mod Arrivals
pub mod Started
pub mod Written
pub mod Formats
pub mod Typed
pub mod Crowded
