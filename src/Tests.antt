-- ===== src/Tests.antt =====
-- Runs of the model at concrete inputs, and the theorems applied to them.
pub mod Queues
pub mod Memory
pub mod Setup
pub mod Kernels
pub mod Turns
pub mod Services
pub mod Tasks
pub mod Traps
pub mod Programs
pub mod Output
pub mod Copies
pub mod Whole
pub mod Channels
