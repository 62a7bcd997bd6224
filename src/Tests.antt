-- ===== src/Tests.antt =====
-- Concrete runs of each part, and each theorem at a concrete input.
pub mod Ring
pub mod Server
pub mod Wire
pub mod Functions
pub mod Telecommands
pub mod Camera
pub mod Network
pub mod Threads
pub mod Delivery
pub mod Path
