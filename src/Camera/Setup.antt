-- ===== src/Camera/Setup.antt =====
-- Initialize, Start, Stop and the destructor of src/camera/camera_source.cpp, over what the
-- device answers.
use camera_subsystem.Prelude.{
  ℕ, zero, suc, ◌+◌, ◌-◌, Bool, true, false, not, ◌&&◌, ◌||◌, Option, none, some, List, [], ◌∷◌,
  ltb, leb, ◌==◌, if◌then◌else◌, length, is_empty, bytes_eq, nat_eq,
}
use camera_subsystem.Core.Words.{u64}
use camera_subsystem.Core.Types.{io_dma_buf, io_method_code}
use camera_subsystem.Core.CameraConfig as Config
use camera_subsystem.Core.CameraConfig.{CameraConfig, is_unknown}
use camera_subsystem.Core.BufferPool.{initialize}
use camera_subsystem.Camera.Formats.{Fourccs, from_v4l2_pixel_format, calculate_buffer_size}
use camera_subsystem.Camera.Device.{
  CaptureBuffer, new_capture_buffer, CameraSource, note, close_device, start_stream, stop_stream,
  cleanup_dma_buf_exports, cleanup_buffers, requested, queued,
}

-- `open`; the two capability bits that VIDIOC_QUERYCAP gives; the width, height and code that
-- VIDIOC_S_FMT settles on; the count of VIDIOC_REQBUFS; the lengths of VIDIOC_QUERYBUF, the
-- mappings of `mmap`, the descriptors of VIDIOC_EXPBUF and the success of VIDIOC_QBUF for each
-- buffer; and the success of VIDIOC_STREAMOFF in the Stop at the beginning.
pub record Answers : Type 0 where
  pub opened : Option ℕ
  pub capabilities : Option (Bool × Bool)
  pub negotiated : Option (ℕ × ℕ × ℕ)
  pub granted : Option ℕ
  pub queried : ℕ → Option ℕ
  pub mapped : ℕ → Option ℕ
  pub exported : ℕ → Option ℕ
  pub accepted : ℕ → Bool
  pub stopped : Bool

unfoldable pub stop : CameraSource → Bool → CameraSource
stop s off_ok =
    if not s.is_running
    then s
    else stop_stream
        (record s { is_running = false; context = record (s.context) { active = false } }) off_ok

abbrev pub has_capabilities : Option (Bool × Bool) → Bool
has_capabilities none = false
has_capabilities (some (capture, streaming)) = capture && streaming

abbrev pub opened_device : CameraSource → Option ℕ → Answers → CameraSource × Bool
opened_device s none a = (s, false)
opened_device s (some fd) a =
    if has_capabilities a.capabilities
    then (record s { device_fd = some fd }, true)
    else (close_device (record s { device_fd = some fd }), false)

abbrev pub open_unless : CameraSource → Option ℕ → Answers → CameraSource × Bool
open_unless s none a = opened_device s a.opened a
open_unless s (some fd) a = (s, true)

unfoldable pub open_device : CameraSource → Answers → CameraSource × Bool
open_device s a = open_unless s s.device_fd a

-- VIDIOC_S_PARM only fails with a warning.
unfoldable pub configure_device : Fourccs → CameraSource → Option (ℕ × ℕ × ℕ) → CameraSource × Bool
configure_device v s none = (s, false)
configure_device v s (some (width, height, code)) =
    let format = from_v4l2_pixel_format v code in
    (
      record s {
        config = record (s.config) {
          width = width;
          height = height;
          format = if is_unknown format then s.config.format else format;
        };
      },
      true,
    )

abbrev pub blank_buffers : ℕ → List CaptureBuffer
blank_buffers zero = []
blank_buffers (suc n) = new_capture_buffer ∷ blank_buffers n

-- The loop of VIDIOC_QUERYBUF and `mmap` from buffer `i` on; a mapping that failed reads as none.
abbrev pub map_from : Answers → ℕ → ℕ → List CaptureBuffer × Bool
map_from a i zero = ([], true)
map_from a i (suc n) =
    let (rest, ok) = map_from a (suc i) n in
    elim (a.queried i) [
      | none ↦ (new_capture_buffer ∷ blank_buffers n, false)
      | some size ↦ elim (a.mapped i) [
        | none ↦ (record new_capture_buffer { length = size } ∷ blank_buffers n, false)
        | some start ↦ (record new_capture_buffer { start = some start; length = size } ∷ rest, ok)
      ]
    ]

abbrev pub export_then :
    CaptureBuffer
    → List CaptureBuffer
    → Option ℕ
    → List CaptureBuffer × Bool
    → List CaptureBuffer × Bool
export_then b bs none later = (b ∷ bs, false)
export_then b bs (some fd) (rest, ok) =
    (record b { dma_buf_fd = some fd; dma_buf_exported = true } ∷ rest, ok)

-- The loop of VIDIOC_EXPBUF, which stops at the first failure.
abbrev pub export_from : Answers → ℕ → List CaptureBuffer → List CaptureBuffer × Bool
export_from a i [] = ([], true)
export_from a i (b ∷ bs) = export_then b bs (a.exported i) (export_from a (suc i) bs)

unfoldable pub init_dma_buf_export : CameraSource → Answers → CameraSource × Bool
init_dma_buf_export s a =
    let (bs, ok) = export_from a 0 s.buffers in
    let n = length s.buffers in
    let least = if leb 4 n then 2 else 1 in
    if is_empty s.buffers
    then (s, false)
    else (if not ok
        then (
          cleanup_dma_buf_exports (record s {
            buffers = bs;
            dma_buf_export_failures = u64 (s.dma_buf_export_failures + 1);
          }),
          false,
        )
        else (
          record s {
            buffers = bs;
            min_queued = least;
            lease_max = if leb n least then 1 else n - least;
          },
          true,
        ))

-- The loop of VIDIOC_QBUF from buffer `i` on, which stops at the first failure.
abbrev pub queue_from : Answers → ℕ → ℕ → CameraSource → CameraSource × Bool
queue_from a i zero s = (s, true)
queue_from a i (suc n) s =
    let later = queue_from a (suc i) n (note s (queued i)) in
    if a.accepted i then later else (s, false)

abbrev pub exported_source : CameraSource → Answers → CameraSource
exported_source s a =
    let (t, ok) = init_dma_buf_export s a in
    if s.config.io_method == io_method_code io_dma_buf
    then record t { dma_buf_path_enabled = ok }
    else s

abbrev pub granted_buffers : CameraSource → Answers → ℕ → CameraSource × Bool
granted_buffers s a n =
    let (bs, ok) = map_from a 0 n in
    let mapped = record (note s (requested n)) { buffers = bs } in
    if ltb n 2
    then (note s (requested n), false)
    else (if not ok
        then (mapped, false)
        else (let ready =
              exported_source
                (record mapped {
                  dma_buf_path_enabled = false;
                  dma_buf_frame_count = 0;
                  dma_buf_export_failures = 0;
                  lease_exhausted_count = 0;
                })
                a in
            queue_from a 0 (length ready.buffers) ready))

abbrev pub mmap_of : CameraSource → Answers → Option ℕ → CameraSource × Bool
mmap_of s a none = (s, false)
mmap_of s a (some n) = granted_buffers s a n

unfoldable pub init_mmap : CameraSource → Answers → CameraSource × Bool
init_mmap s a = mmap_of s a a.granted

-- What every failure after the device is open does.
abbrev pub give_up : CameraSource → CameraSource
give_up s = close_device (cleanup_buffers (cleanup_dma_buf_exports s))

abbrev pub first_length : List CaptureBuffer → ℕ
first_length [] = 0
first_length (b ∷ bs) = b.length

abbrev pub pool_size : CameraSource → ℕ
pool_size s = let n = first_length s.buffers in if n == 0 then calculate_buffer_size s.config else n

abbrev pub with_pool : CameraSource → CameraSource × Bool
with_pool s =
    let size = pool_size s in
    let (p, ok) = initialize s.system.pool s.config.buffer_count size in
    let t = record s { pool_buffer_size = size; system = record (s.system) { pool = p } } in
    if ok then (t, true) else (give_up t, false)

abbrev pub and_then :
    CameraSource × Bool
    → (CameraSource → CameraSource × Bool)
    → (CameraSource → CameraSource)
    → CameraSource × Bool
and_then (s, true) next failed = next s
and_then (s, false) next failed = (failed s, false)

-- Initialize from ConfigureDevice on, and from InitMMap on.
abbrev pub mapped_stage : Answers → CameraSource → CameraSource × Bool
mapped_stage a s = and_then (init_mmap s a) with_pool give_up

abbrev pub configured_stage : Fourccs → Answers → CameraSource → CameraSource × Bool
configured_stage v a s = and_then (configure_device v s a.negotiated) (mapped_stage a) close_device

unfoldable pub initialize_source :
    Fourccs → CameraSource → CameraConfig → Answers → CameraSource × Bool
initialize_source v s config a =
    let idle = give_up (stop s a.stopped) in
    if not (Config.is_valid config)
    then (idle, false)
    else and_then (open_device (record idle { config = config }) a) (configured_stage v a)
        (λ s1. s1)

-- The end of Start; the capture thread is the steps of Camera/Capture.
abbrev pub begin_capture : CameraSource → CameraSource × Bool
begin_capture s = (
  record s {
    context = record (s.context) { device_fd = s.device_fd; active = true };
    is_running = true;
    frame_count = 0;
    dropped_frames = 0;
  },
  true,
)

-- Start, and whether VIDIOC_STREAMON succeeds.
unfoldable pub start : CameraSource → Bool → CameraSource × Bool
start s on_ok =
    if s.is_running
    then (s, true)
    else (if not (Config.is_valid s.config) || is_empty s.buffers
        then (s, false)
        else and_then (start_stream s on_ok) begin_capture (λ t. t))

-- The destructor.
unfoldable pub destroy_source : CameraSource → Bool → CameraSource
destroy_source s off_ok = give_up (stop s off_ok)
