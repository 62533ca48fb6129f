-- ===== src/Core.antt =====
-- src/core and include/camera_subsystem/core: types, frames, and the buffer pool.
pub mod Words
pub mod Types
pub mod CameraConfig
pub mod FrameHandle
pub mod FrameDescriptor
pub mod BufferPool
pub mod FrameLease
