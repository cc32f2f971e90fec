-- ===== src/System.antt =====
-- The module as a transition system.
pub mod Areas
pub mod Creation
pub mod Removal
pub mod Buffers
pub mod Saved
pub mod Unmapping
pub mod Faults
pub mod Closing
pub mod Steps
pub mod Invariant
pub mod Reached
pub mod Netfree
pub mod Served
pub mod Progress
