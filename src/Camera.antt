-- ===== src/Camera.antt =====
-- src/camera/camera_source.cpp with its header: the capture from a V4L2 device. What the device
-- answers to a call is an argument, and the calls that matter for its queue are recorded.
pub mod Formats
pub mod Device
pub mod Setup
pub mod Capture
pub mod Queue
pub mod Leases
pub mod Packets
pub mod Startup
pub mod Filling
pub mod Starvation
