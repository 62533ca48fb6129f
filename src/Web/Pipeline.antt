-- ===== src/Web/Pipeline.antt =====
-- extensions/web_preview/gateway/src/frame_pipeline.cpp. Readings of the clock, in nanoseconds, are
-- arguments; SubmitFrame under `mutex_` is one step, with the packets given to the callback kept.
use camera_subsystem.Core.Types.{pixel_format_code, mjpeg, rgb888, rgba8888, nv12, yuyv}
use camera_subsystem.Prelude.{
  ℕ, ◌+◌, ◌*◌, ◌/◌, ◌≡◌, refl, inl, inr, Bool, true, false, not, Option, none, some, List, [], ◌∷◌,
  arith, leb, ◌==◌, if◌then◌else◌, Bool-cases, length, tally, subst, suc, Bytes, codes, bytes_eq,
  nat_eq,
}
use camera_subsystem.Core.Words.{u64}

pub data WebPixelFormat : Type 0 where
  web_unknown jpeg rgb rgba web_nv12 web_yuyv uyvy : WebPixelFormat

abbrev pub web_format_code : WebPixelFormat → ℕ
web_format_code web_unknown = 0
web_format_code jpeg = 1
web_format_code rgb = 2
web_format_code rgba = 3
web_format_code web_nv12 = 4
web_format_code web_yuyv = 5
web_format_code uyvy = 6

-- PixelFormatToString of extensions/web_preview/gateway/src/web_server.cpp.
unfoldable pub web_format_to_string : WebPixelFormat → Bytes
web_format_to_string jpeg = codes "JPEG"
web_format_to_string rgb = codes "RGB"
web_format_to_string rgba = codes "RGBA"
web_format_to_string web_nv12 = codes "NV12"
web_format_to_string web_yuyv = codes "YUYV"
web_format_to_string uyvy = codes "UYVY"
web_format_to_string web_unknown = codes "UNKNOWN"

-- The codes are those of PixelFormat in include/camera_subsystem/core/types.h.
unfoldable pub map_pixel_format : ℕ → WebPixelFormat
map_pixel_format code =
    if code == pixel_format_code mjpeg
    then jpeg
    else (if code == pixel_format_code rgb888
        then rgb
        else (if code == pixel_format_code rgba8888
            then rgba
            else (if code == pixel_format_code nv12
                then web_nv12
                else (if code == pixel_format_code yuyv then web_yuyv else web_unknown))))

pub record StreamStats : Type 0 where
  pub input_frames : ℕ
  pub published_frames : ℕ
  pub dropped_frames : ℕ
  pub unsupported_frames : ℕ
  pub width : ℕ
  pub height : ℕ
  pub pixel_format : WebPixelFormat
  pub status : Bytes

-- What SubmitFrame reads of a frame's header, and the payload.
pub record CameraFrame : Type 0 where
  pub frame_id : ℕ
  pub timestamp_ns : ℕ
  pub width : ℕ
  pub height : ℕ
  pub pixel_format : ℕ
  pub frame_size : ℕ
  pub payload : Bytes

-- WebFrameHeader, whose strides and reserved bytes stay zero, and the payload behind it.
pub record WebPacket : Type 0 where
  pub magic : ℕ
  pub version : ℕ
  pub header_size : ℕ
  pub stream_id : ℕ
  pub frame_id : ℕ
  pub timestamp_ns : ℕ
  pub width : ℕ
  pub height : ℕ
  pub pixel_format : ℕ
  pub payload_size : ℕ
  pub transform_flags : ℕ
  pub payload : Bytes

-- `last_publish_time_` is none while it is the least time point.
pub record FramePipeline : Type 0 where
  pub max_fps : ℕ
  pub stats : StreamStats
  pub last_publish_time : Option ℕ
  pub has_packet_callback : Bool
  pub packets : List WebPacket

-- The constructor.
unfoldable pub new_pipeline : FramePipeline
new_pipeline = record {
  max_fps = 15;
  stats = record {
    input_frames = 0;
    published_frames = 0;
    dropped_frames = 0;
    unsupported_frames = 0;
    width = 0;
    height = 0;
    pixel_format = web_unknown;
    status = codes "idle";
  };
  last_publish_time = none;
  has_packet_callback = false;
  packets = [];
}

unfoldable pub set_max_fps : FramePipeline → ℕ → FramePipeline
set_max_fps p max_fps = record p { max_fps = if max_fps == 0 then 1 else max_fps }

unfoldable pub set_packet_callback : FramePipeline → Bool → FramePipeline
set_packet_callback p callback = record p { has_packet_callback = callback }

-- The milliseconds between two frames are a whole number.
abbrev pub min_interval : FramePipeline → ℕ
min_interval p = 1000 / (if p.max_fps == 0 then 1 else p.max_fps) * 1000000

abbrev pub publishes_after : FramePipeline → Option ℕ → ℕ → Bool
publishes_after p none now = true
publishes_after p (some last) now = leb (last + min_interval p) now

unfoldable pub should_publish_now : FramePipeline → ℕ → Bool
should_publish_now p now = publishes_after p p.last_publish_time now

abbrev pub is_jpeg : WebPixelFormat → Bool
is_jpeg jpeg = true
is_jpeg _ = false

-- sizeof(WebFrameHeader), packed.
abbrev pub web_header_size : ℕ
web_header_size = 92

unfoldable pub make_web_packet : CameraFrame → WebPacket
make_web_packet f = record {
  magic = 0x57504652;
  version = 1;
  header_size = web_header_size;
  stream_id = 0;
  frame_id = f.frame_id;
  timestamp_ns = f.timestamp_ns;
  width = f.width;
  height = f.height;
  pixel_format = web_format_code (map_pixel_format f.pixel_format);
  payload_size = f.frame_size;
  transform_flags = 0;
  payload = f.payload;
}

abbrev pub count_input : StreamStats → CameraFrame → StreamStats
count_input s f = record s {
  input_frames = u64 (s.input_frames + 1);
  width = f.width;
  height = f.height;
  pixel_format = map_pixel_format f.pixel_format;
}

abbrev pub drop_with : StreamStats → Bytes → StreamStats
drop_with s text = record s { dropped_frames = u64 (s.dropped_frames + 1); status = text }

-- SubmitFrame, with the clock when it asks whether to publish, and again when it has.
unfoldable pub submit_frame : FramePipeline → CameraFrame → ℕ → ℕ → FramePipeline
submit_frame p f now later =
    let seen = count_input p.stats f in
    if not (is_jpeg (map_pixel_format f.pixel_format))
    then record p {
      stats =
          drop_with (record seen { unsupported_frames = u64 (seen.unsupported_frames + 1) })
            (codes "unsupported_pixel_format");
    }
    else (if not (should_publish_now p now)
        then record p { stats = drop_with seen (codes "rate_limited") }
        else record p {
          stats = record seen {
            published_frames = u64 (seen.published_frames + 1);
            status = codes "streaming";
          };
          last_publish_time = some later;
          packets = if p.has_packet_callback then make_web_packet f ∷ p.packets else p.packets;
        })

abbrev pub submit_all : FramePipeline → List (CameraFrame × ℕ × ℕ) → FramePipeline
submit_all p [] = p
submit_all p ((f, now, later) ∷ rest) = submit_all (submit_frame p f now later) rest

abbrev pub is_unsupported : CameraFrame × ℕ × ℕ → Bool
is_unsupported (f, now, later) = not (is_jpeg (map_pixel_format f.pixel_format))

-- The counters after `n` frames, `k` of them in a format that is not supported.
record IsCounted (n k : ℕ) (p : FramePipeline) : Type 0 where
  callback : p.has_packet_callback ≡ true
  frames : u64 (p.stats.published_frames + p.stats.dropped_frames) ≡ u64 n
  inputs : p.stats.input_frames ≡ u64 n
  unsupported : p.stats.unsupported_frames ≡ u64 k
  handed : u64 (length p.packets) ≡ p.stats.published_frames

submit_frame-IsCounted :
    (n k : ℕ) (p : FramePipeline) (f : CameraFrame) (now later : ℕ)
    → IsCounted n k p
    → IsCounted
        (n + 1)
        (k + (if is_unsupported (f, now, later) then 1 else 0))
        (submit_frame p f now later)
unfolding submit_frame
submit_frame-IsCounted n k p f now later c =
    elim (Bool-cases (is_jpeg (map_pixel_format f.pixel_format))) [
      | inr other ↦ rw other record {
        callback = c.callback;
        frames = omega (arith, c.frames);
        inputs = omega (arith, c.inputs);
        unsupported = omega (arith, c.unsupported);
        handed = c.handed;
      }
      | inl picture ↦ elim (Bool-cases (should_publish_now p now)) [
        | inr early ↦
            rw (picture, early)
              record {
                callback = c.callback;
                frames = omega (arith, c.frames);
                inputs = omega (arith, c.inputs);
                unsupported = omega (arith, c.unsupported);
                handed = c.handed;
              }
        | inl due ↦
            rw (picture, due)
              record {
                callback = c.callback;
                frames = omega (arith, c.frames);
                inputs = omega (arith, c.inputs);
                unsupported = omega (arith, c.unsupported);
                handed = ground (arith, c.callback, c.handed);
              }
      ]
    ]

submit_all-IsCounted :
    (n k : ℕ) (p : FramePipeline) (fs : List (CameraFrame × ℕ × ℕ))
    → IsCounted n k p
    → IsCounted (n + length fs) (k + tally is_unsupported fs) (submit_all p fs)
submit_all-IsCounted n k p [] c =
    let same : n ≡ n + 0 = omega arith in
    let same_too : k ≡ k + 0 = omega arith in
    subst (λ m. IsCounted m (k + 0) p) same (subst (λ m. IsCounted n m p) same_too c)
submit_all-IsCounted n k p ((f, now, later) ∷ rest) c =
    let one = if is_unsupported (f, now, later) then 1 else 0 in
    let more =
      submit_all-IsCounted (n + 1) (k + one) (submit_frame p f now later) rest
        (submit_frame-IsCounted n k p f now later c) in
    let after = submit_all (submit_frame p f now later) rest in
    let same : n + 1 + length rest ≡ n + suc (length rest) = omega arith in
    let same_too : k + one + tally is_unsupported rest ≡ k + (one + tally is_unsupported rest) =
      omega arith in
    subst (λ m. IsCounted m (k + (one + tally is_unsupported rest)) after) same
      (subst (λ m. IsCounted (n + 1 + length rest) m after) same_too more)

-- A new pipeline with a packet callback, at any rate and for any frames at any times, counts every
-- submitted frame as an input, and once as published or as dropped; it counts those in a format other
-- than JPEG as unsupported and hands on one packet for each that it counts as published, as far as
-- 64-bit counters tell.
pub frames_counted_once :
    (max_fps : ℕ) (fs : List (CameraFrame × ℕ × ℕ))
    → let p = submit_all (set_packet_callback (set_max_fps new_pipeline max_fps) true) fs in
      (p.stats.input_frames ≡ u64 (length fs))
      × (u64 (p.stats.published_frames + p.stats.dropped_frames) ≡ u64 (length fs))
      × (p.stats.unsupported_frames ≡ u64 (tally is_unsupported fs))
      × (u64 (length p.packets) ≡ p.stats.published_frames)
unfolding new_pipeline set_max_fps set_packet_callback
frames_counted_once max_fps fs =
    let c =
      submit_all-IsCounted 0 0 (set_packet_callback (set_max_fps new_pipeline max_fps) true) fs
        (record {
          callback = refl;
          frames = refl;
          inputs = refl;
          unsupported = refl;
          handed = refl;
        }) in
    (omega (arith, c.inputs), omega (arith, c.frames), omega (arith, c.unsupported), c.handed)
