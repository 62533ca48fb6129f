-- ===== src/Camera/Formats.antt =====
-- Pixel formats and the layout of a frame in src/camera/camera_source.cpp. The fourcc codes are those
-- of linux/videodev2.h, a parameter here.
use camera_subsystem.Prelude.{
  ℕ, ◌*◌, ◌/◌, ◌≡◌, refl, ◌≢◌, Bool, true, false, ◌||◌, arith, ◌==◌, if◌then◌else◌, bytes_eq,
  nat_eq,
}
use camera_subsystem.Core.Words.{u32}
use camera_subsystem.Core.Types.{
  PixelFormat, unknown, nv12, yuyv, rgb888, rgba8888, mjpeg, h264, h265, format_count,
}
use camera_subsystem.Core.CameraConfig.{CameraConfig}
use camera_subsystem.Core.FrameHandle.{FrameHandle}

pub record Fourccs : Type 0 where
  pub of_nv12 : ℕ
  pub of_yuyv : ℕ
  pub of_rgb24 : ℕ
  pub of_rgb32 : ℕ
  pub of_mjpeg : ℕ
  pub of_jpeg : ℕ
  pub of_h264 : ℕ
  pub of_hevc : ℕ

unfoldable pub to_v4l2_pixel_format : Fourccs → PixelFormat → ℕ
to_v4l2_pixel_format v nv12 = v.of_nv12
to_v4l2_pixel_format v yuyv = v.of_yuyv
to_v4l2_pixel_format v rgb888 = v.of_rgb24
to_v4l2_pixel_format v rgba8888 = v.of_rgb32
to_v4l2_pixel_format v mjpeg = v.of_mjpeg
to_v4l2_pixel_format v h264 = v.of_h264
to_v4l2_pixel_format v h265 = v.of_hevc
to_v4l2_pixel_format v unknown = v.of_nv12
to_v4l2_pixel_format v format_count = v.of_nv12

unfoldable pub from_v4l2_pixel_format : Fourccs → ℕ → PixelFormat
from_v4l2_pixel_format v code =
    if code == v.of_nv12
    then nv12
    else (if code == v.of_yuyv
        then yuyv
        else (if code == v.of_rgb24
            then rgb888
            else (if code == v.of_rgb32
                then rgba8888
                else (if code == v.of_mjpeg || code == v.of_jpeg
                    then mjpeg
                    else (if code == v.of_h264
                        then h264
                        else (if code == v.of_hevc then h265 else unknown))))))

-- The arithmetic is on uint32_t before the result is widened.
unfoldable pub calculate_buffer_size : CameraConfig → ℕ
calculate_buffer_size c = size_for c.format
  where
    size_for : PixelFormat → ℕ
    size_for nv12 = u32 (c.width * c.height * 3) / 2
    size_for yuyv = u32 (c.width * c.height * 2)
    size_for rgb888 = u32 (c.width * c.height * 3)
    size_for rgba8888 = u32 (c.width * c.height * 4)
    size_for _ = u32 (c.width * c.height * 2)

abbrev pub is_nv12 : PixelFormat → Bool
is_nv12 nv12 = true
is_nv12 _ = false

unfoldable pub fill_frame_layout : FrameHandle → ℕ → FrameHandle
fill_frame_layout f buffer_size =
    if is_nv12 f.format
    then record f {
      plane_count = 2;
      line_stride = record (f.line_stride) { first = f.width; second = f.width };
      plane_offset = record (f.plane_offset) { first = 0; second = u32 (f.width * f.height) };
      plane_size = record (f.plane_size) {
        first = u32 (f.width * f.height);
        second = u32 (f.width * f.height) / 2;
      };
    }
    else record f {
      plane_count = 1;
      line_stride = record (f.line_stride) { first = u32 (f.width * 2) };
      plane_offset = record (f.plane_offset) { first = 0 };
      plane_size = record (f.plane_size) { first = u32 buffer_size };
    }

-- The codes are different from one another.
pub record IsDistinct (v : Fourccs) : Type 0 where
  pub from_nv12 :
      (v.of_yuyv ≢ v.of_nv12)
      × (v.of_rgb24 ≢ v.of_nv12)
      × (v.of_rgb32 ≢ v.of_nv12)
      × (v.of_mjpeg ≢ v.of_nv12)
      × (v.of_h264 ≢ v.of_nv12)
      × (v.of_hevc ≢ v.of_nv12)
  pub from_yuyv :
      (v.of_rgb24 ≢ v.of_yuyv)
      × (v.of_rgb32 ≢ v.of_yuyv)
      × (v.of_mjpeg ≢ v.of_yuyv)
      × (v.of_h264 ≢ v.of_yuyv)
      × (v.of_hevc ≢ v.of_yuyv)
  pub from_rgb :
      (v.of_rgb32 ≢ v.of_rgb24)
      × (v.of_mjpeg ≢ v.of_rgb24)
      × (v.of_h264 ≢ v.of_rgb24)
      × (v.of_hevc ≢ v.of_rgb24)
      × (v.of_mjpeg ≢ v.of_rgb32)
      × (v.of_h264 ≢ v.of_rgb32)
      × (v.of_hevc ≢ v.of_rgb32)
  pub from_jpeg :
      (v.of_h264 ≢ v.of_mjpeg)
      × (v.of_hevc ≢ v.of_mjpeg)
      × (v.of_h264 ≢ v.of_jpeg)
      × (v.of_hevc ≢ v.of_jpeg)
      × (v.of_hevc ≢ v.of_h264)

-- A format that the device knows survives the way to its code and back, when the codes of
-- linux/videodev2.h are different from one another.
pub format_survives :
    (v : Fourccs) (f : PixelFormat)
    → IsDistinct v
    → f ≢ unknown
    → f ≢ format_count
    → from_v4l2_pixel_format v (to_v4l2_pixel_format v f) ≡ f
unfolding from_v4l2_pixel_format to_v4l2_pixel_format
format_survives v nv12 d known real = ground arith
format_survives v yuyv d known real = ground (arith, d.from_nv12)
format_survives v rgb888 d known real = ground (arith, d.from_nv12, d.from_yuyv)
format_survives v rgba8888 d known real = ground (arith, d.from_nv12, d.from_yuyv, d.from_rgb)
format_survives v mjpeg d known real = ground (arith, d.from_nv12, d.from_yuyv, d.from_rgb)
format_survives v h264 d known real =
    ground (arith, d.from_nv12, d.from_yuyv, d.from_rgb, d.from_jpeg)
format_survives v h265 d known real =
    ground (arith, d.from_nv12, d.from_yuyv, d.from_rgb, d.from_jpeg)
format_survives v unknown d known real = absurd (known refl)
format_survives v format_count d known real = absurd (real refl)
