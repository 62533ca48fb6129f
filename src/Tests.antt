-- ===== src/Tests.antt =====
-- Runs of the models on small inputs.
pub mod PoolTests
pub mod FrameTests
pub mod SessionTests
pub mod BrokerTests
pub mod ReleaseTests
pub mod ControlTests
pub mod CameraTests
pub mod CodecTests
pub mod WebTests
