-- ===== src/Ipc.antt =====
-- src/ipc and include/camera_subsystem/ipc: the contract, the data plane, the releases and the
-- control server.
pub mod Contract
pub mod Transfer
pub mod DataPlane
pub mod Descriptors
pub mod Release
pub mod Server
pub mod Control
pub mod Client
