-- ===== src/Web.antt =====
-- extensions/web_preview/gateway/src: the gateway between the frames of a camera and web browsers.
pub mod Frames
pub mod Paths
pub mod Pipeline
pub mod Commands
pub mod Masks
pub mod Client
pub mod Turns
pub mod Answers
