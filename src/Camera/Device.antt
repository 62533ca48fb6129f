-- ===== src/Camera/Device.antt =====
-- The state of include/camera_subsystem/camera/camera_source.h, and the device behind it: `calls`
-- is the log of the driver calls that succeeded, the last one first. The frames handed to the
-- callbacks and the DMA-BUF leases handed out are kept, since the owners of those act later. The
-- callback mutex and the requeue mutex make each step below one step; logging is left out.
use camera_subsystem.Prelude.{
  ℕ, Bool, true, false, not, Option, none, some, List, [], ◌∷◌, map, if◌then◌else◌, Bytes, codes,
  bytes_eq, nat_eq,
}
use camera_subsystem.Core.CameraConfig.{CameraConfig, empty_config}
use camera_subsystem.Core.FrameHandle.{FrameHandle}
use camera_subsystem.Core.FrameDescriptor.{FramePacket}
use camera_subsystem.Core.FrameLease.{DmaBufFrameLease}
use camera_subsystem.Core.BufferPool.{new_pool}
use camera_subsystem.Core.BufferPool.Ownership.{System}

-- A call of the device that succeeded: VIDIOC_REQBUFS, VIDIOC_QBUF, VIDIOC_DQBUF, VIDIOC_STREAMON,
-- VIDIOC_STREAMOFF, and `close` of the device or of an exported buffer.
pub data DeviceCall : Type 0 where
  requested queued dequeued closed_export : ℕ → DeviceCall
  stream_on stream_off closed_device : DeviceCall

-- Buffer; a null mapping or descriptor is none.
pub record CaptureBuffer : Type 0 where
  pub start : Option ℕ
  pub length : ℕ
  pub dma_buf_fd : Option ℕ
  pub dma_buf_exported : Bool

abbrev pub new_capture_buffer : CaptureBuffer
new_capture_buffer = record {
  start = none;
  length = 0;
  dma_buf_fd = none;
  dma_buf_exported = false;
}

pub record RequeueContext : Type 0 where
  pub device_fd : Option ℕ
  pub active : Bool
  pub active_leases : ℕ

-- A callback is there or not; `system` is the buffer pool with its guards.
pub record CameraSource : Type 0 where
  pub config : CameraConfig
  pub device_path : Bytes
  pub device_fd : Option ℕ
  pub streaming : Bool
  pub buffers : List CaptureBuffer
  pub context : RequeueContext
  pub dma_buf_path_enabled : Bool
  pub min_queued : ℕ
  pub lease_max : ℕ
  pub dma_buf_frame_count : ℕ
  pub dma_buf_export_failures : ℕ
  pub lease_exhausted_count : ℕ
  pub is_running : Bool
  pub frame_count : ℕ
  pub dropped_frames : ℕ
  pub callback : Bool
  pub callback_with_buffer : Bool
  pub frame_packet_callback : Bool
  pub system : System
  pub pool_buffer_size : ℕ
  pub leases : List DmaBufFrameLease
  pub frames : List FrameHandle
  pub packets : List FramePacket
  pub calls : List DeviceCall

-- The constructor.
unfoldable pub new_source : CameraSource
unfolding new_pool
new_source = record {
  config = empty_config;
  device_path = codes "/dev/video0";
  device_fd = none;
  streaming = false;
  buffers = [];
  context = record { device_fd = none; active = false; active_leases = 0 };
  dma_buf_path_enabled = false;
  min_queued = 1;
  lease_max = 1;
  dma_buf_frame_count = 0;
  dma_buf_export_failures = 0;
  lease_exhausted_count = 0;
  is_running = false;
  frame_count = 0;
  dropped_frames = 0;
  callback = false;
  callback_with_buffer = false;
  frame_packet_callback = false;
  system = record { pool = new_pool; guards = [] };
  pool_buffer_size = 0;
  leases = [];
  frames = [];
  packets = [];
  calls = [];
}

abbrev pub note : CameraSource → DeviceCall → CameraSource
note s c = record s { calls = c ∷ s.calls }

-- SetFrameCallback, SetFrameCallbackWithBuffer, SetFramePacketCallback and SetDevicePath.
unfoldable pub set_frame_callback : CameraSource → Bool → CameraSource
set_frame_callback s f = record s { callback = f }

unfoldable pub set_frame_callback_with_buffer : CameraSource → Bool → CameraSource
set_frame_callback_with_buffer s f = record s { callback_with_buffer = f }

unfoldable pub set_frame_packet_callback : CameraSource → Bool → CameraSource
set_frame_packet_callback s f = record s { frame_packet_callback = f }

unfoldable pub set_device_path : CameraSource → Bytes → CameraSource
set_device_path s path = if s.is_running then s else record s { device_path = path }

unfoldable pub close_device : CameraSource → CameraSource
close_device s = elim s.device_fd [
  | none ↦ s
  | some fd ↦ record s { device_fd = none; calls = closed_device ∷ s.calls }
]

-- Whether VIDIOC_STREAMON succeeds.
unfoldable pub start_stream : CameraSource → Bool → CameraSource × Bool
start_stream s ok =
    if s.streaming
    then (s, true)
    else (if ok
        then (record s { streaming = true; calls = stream_on ∷ s.calls }, true)
        else (s, false))

-- Whether VIDIOC_STREAMOFF succeeds; the stream counts as stopped either way.
unfoldable pub stop_stream : CameraSource → Bool → CameraSource
stop_stream s ok =
    if not s.streaming
    then s
    else record s { streaming = false; calls = if ok then stream_off ∷ s.calls else s.calls }

abbrev pub close_export : Option ℕ → List DeviceCall → List DeviceCall
close_export none log = log
close_export (some fd) log = closed_export fd ∷ log

-- The descriptors that are open are closed, from buffer 0 on.
abbrev pub closed_exports : List CaptureBuffer → List DeviceCall → List DeviceCall
closed_exports [] log = log
closed_exports (b ∷ bs) log = closed_exports bs (close_export b.dma_buf_fd log)

abbrev pub without_export : CaptureBuffer → CaptureBuffer
without_export b = record b { dma_buf_fd = none; dma_buf_exported = false }

-- The wait of at most 200 ms for the leases changes nothing itself: a release that happens in it
-- is a step of its own.
unfoldable pub cleanup_dma_buf_exports : CameraSource → CameraSource
cleanup_dma_buf_exports s = record s {
  buffers = map without_export s.buffers;
  dma_buf_path_enabled = false;
  calls = closed_exports s.buffers s.calls;
}

-- The mappings, whose bytes are not modelled, go with the buffers.
unfoldable pub cleanup_buffers : CameraSource → CameraSource
cleanup_buffers s = record s { buffers = [] }
