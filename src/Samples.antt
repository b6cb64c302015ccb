-- ===== src/Samples.antt =====
-- Runs of the models on small inputs, and every theorem with conditions at one of them.
pub mod States
pub mod Frames
pub mod Faults
pub mod Bus
pub mod Contexts
pub mod Devices
pub mod Graphs
pub mod Kernels
pub mod Tasks
pub mod Processes
pub mod Plugins
pub mod Hosts
