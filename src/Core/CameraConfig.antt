-- ===== src/Core/CameraConfig.antt =====
-- src/core/camera_config.cpp; `reserved_` is always zero and left out.
use camera_subsystem.Prelude.{ℕ, Bool, not, ◌&&◌, ltb, leb, ◌==◌, bytes_eq, nat_eq}
use camera_subsystem.Core.Types.{
  PixelFormat, unknown, nv12, pixel_format_code, io_dma_buf, io_user_ptr, io_method_code,
}

pub record CameraConfig : Type 0 where
  pub width : ℕ
  pub height : ℕ
  pub format : PixelFormat
  pub fps : ℕ
  pub buffer_count : ℕ
  pub io_method : ℕ

-- The constructor without arguments.
abbrev pub empty_config : CameraConfig
empty_config = record {
  width = 0;
  height = 0;
  format = unknown;
  fps = 0;
  buffer_count = 0;
  io_method = io_method_code io_dma_buf;
}

abbrev pub new_config : ℕ → ℕ → PixelFormat → ℕ → ℕ → ℕ → CameraConfig
new_config width height format fps buffer_count io_method = record {
  width = width;
  height = height;
  format = format;
  fps = fps;
  buffer_count = buffer_count;
  io_method = io_method;
}

abbrev pub is_unknown : PixelFormat → Bool
is_unknown f = pixel_format_code f == pixel_format_code unknown

unfoldable pub is_valid : CameraConfig → Bool
is_valid c =
    ltb 0 c.width
    && ltb 0 c.height
    && not (is_unknown c.format)
    && ltb 0 c.fps
    && leb 2 c.buffer_count
    && leb c.buffer_count 8
    && leb c.io_method (io_method_code io_user_ptr)

unfoldable pub reset : CameraConfig → CameraConfig
reset c = record c {
  width = 0;
  height = 0;
  format = unknown;
  fps = 0;
  buffer_count = 0;
  io_method = io_method_code io_dma_buf;
}

unfoldable pub get_default : CameraConfig
get_default = new_config 1920 1080 nv12 30 4 (io_method_code io_dma_buf)
