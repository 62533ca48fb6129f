-- ===== src/Codec.antt =====
-- extensions/codec_server/src: the recording of a camera's stream into a file. The file system, the
-- clock, the decoder and the encoder are arguments.
pub mod Writer
pub mod Names
pub mod Session
pub mod Protocol
pub mod Control
