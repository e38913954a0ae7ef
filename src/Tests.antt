-- ===== src/Tests.antt =====
-- The examples: a DDS environment, graphs and buffers, and each property at one of them.
pub mod Naming
pub mod Registry
pub mod Graphs
pub mod Inspection
pub mod Publication
pub mod Lifecycle
pub mod Cpp
pub mod Shutdown
pub mod Spec
