-- ===== src/Camera/Capture.antt =====
-- HandleDequeuedBuffer of src/camera/camera_source.cpp and what it calls: the two ways a frame
-- takes, and the callback of a DMA-BUF lease.
use camera_subsystem.Prelude.{
  ℕ, ◌+◌, ◌-◌, min, Bool, true, false, not, ◌&&◌, ◌||◌, Option, none, some, List, [], ◌∷◌, ◌++◌,
  ltb, leb, ◌==◌, if◌then◌else◌, length, get_elem?, set, count, bytes_eq, nat_eq,
}
use camera_subsystem.Core.Words.{u32, u64}
use camera_subsystem.Core.Types.{heap, dma_buf}
use camera_subsystem.Core.FrameHandle.{FrameHandle, Three, all_three, new_handle}
use camera_subsystem.Core.FrameDescriptor.{
  FrameDescriptor, FramePlaneDescriptor, FramePacket, invalid_frame_fd_index,
}
use camera_subsystem.Core.FrameLease.{DmaBufFrameLease, new_dma_buf_lease, release_dma_buf}
use camera_subsystem.Core.BufferPool.BufferGuard.{guard_size}
use camera_subsystem.Core.BufferPool.Ownership.{
  Shared, System, Action, acquires, drops, owned, step, run,
}
use camera_subsystem.Camera.Formats.{fill_frame_layout}
use camera_subsystem.Camera.Device.{CaptureBuffer, CameraSource, note, queued, dequeued}

-- A buffer that VIDIOC_DQBUF gave: its index, `bytesused` and `sequence`; with the clock's answer,
-- the address of the pool buffer, the actions of the frame callback on the guard it is given, and
-- whether VIDIOC_QBUF takes the buffer back.
pub record Dequeued : Type 0 where
  pub index : ℕ
  pub bytes_used : ℕ
  pub sequence : ℕ
  pub timestamp : ℕ
  pub address : ℕ
  pub uses : ℕ → List Action
  pub accepted : Bool

unfoldable pub requeue_buffer : CameraSource → ℕ → Bool → CameraSource
requeue_buffer s i ok = if ok then note s (queued i) else s

abbrev pub drop_frame : CameraSource → CameraSource
drop_frame s = record s { dropped_frames = u64 (s.dropped_frames + 1) }

-- The fields that both ways set alike, before the memory type.
abbrev pub captured_handle : CameraSource → Dequeued → FrameHandle
captured_handle s b = record new_handle {
  frame_id = u32 s.frame_count;
  timestamp_ns = b.timestamp;
  width = s.config.width;
  height = s.config.height;
  format = s.config.format;
  sequence = u32 b.sequence;
}

abbrev pub used_size : Dequeued → CaptureBuffer → ℕ
used_size b buffer = if b.bytes_used == 0 then buffer.length else b.bytes_used

-- The frame of the copy in pool buffer `g`; `memcpy` itself is not modelled.
unfoldable pub copied_frame :
    CameraSource → Dequeued → CaptureBuffer → System → Shared → FrameHandle
copied_frame s b buffer system g =
    let copy_size = min (used_size b buffer) (guard_size system.pool g.guard) in
    fill_frame_layout
      (record (captured_handle s b) {
        memory_type = heap;
        virtual_address = some b.address;
        buffer_size = copy_size;
      })
      copy_size

-- The frame goes to the callback with the buffer, or else to the plain one; the pointer to the
-- guard goes at the end.
abbrev pub deliver : CameraSource → Dequeued → FrameHandle → ℕ → System → CameraSource
deliver s b frame pointer system =
    let used = if s.callback_with_buffer then run system (b.uses pointer) else system in
    record s {
      frame_count = u64 (s.frame_count + 1);
      system = step used (drops pointer);
      frames = if s.callback_with_buffer || s.callback then frame ∷ s.frames else s.frames;
    }

abbrev pub copy_into :
    CameraSource → Dequeued → CaptureBuffer → System → Option Shared → CameraSource
copy_into s b buffer system none = drop_frame (record s { system = system })
copy_into s b buffer system (some g) =
    deliver s b (copied_frame s b buffer system g) (length s.system.guards) system

unfoldable pub handle_copy : CameraSource → Dequeued → CaptureBuffer → CameraSource
handle_copy s b buffer =
    let system = step s.system acquires in
    requeue_buffer (copy_into s b buffer system (owned system (length s.system.guards))) b.index
      b.accepted

unfoldable pub shared_frame : CameraSource → Dequeued → CaptureBuffer → FrameHandle
shared_frame s b buffer =
    let used = used_size b buffer in
    fill_frame_layout
      (record (captured_handle s b) {
        memory_type = dma_buf;
        buffer_fd = buffer.dma_buf_fd;
        virtual_address = none;
        buffer_size = used;
      })
      used

abbrev pub no_plane : FramePlaneDescriptor
no_plane = record {
  fd_index = invalid_frame_fd_index;
  offset = 0;
  stride = 0;
  length = 0;
  bytes_used = 0;
}

abbrev pub plane_below : ℕ → ℕ → ℕ → ℕ → ℕ → FramePlaneDescriptor
plane_below i count offset stride length =
    if ltb i count
    then record {
      fd_index = 0;
      offset = offset;
      stride = stride;
      length = length;
      bytes_used = length;
    }
    else no_plane

-- The loop over the planes, of which there are at most three.
abbrev pub described_planes : FrameHandle → Three FramePlaneDescriptor
described_planes f = record {
  first = plane_below 0 f.plane_count f.plane_offset.first f.line_stride.first f.plane_size.first;
  second =
      plane_below 1 f.plane_count f.plane_offset.second f.line_stride.second f.plane_size.second;
  third = plane_below 2 f.plane_count f.plane_offset.third f.line_stride.third f.plane_size.third;
}

unfoldable pub describe : FrameHandle → ℕ → ℕ → Option ℕ → FrameDescriptor
describe f frame_id index fd = record {
  frame_id = frame_id;
  camera_id = f.camera_id;
  timestamp_ns = f.timestamp_ns;
  sequence = f.sequence;
  width = f.width;
  height = f.height;
  pixel_format = f.format;
  memory_type = dma_buf;
  buffer_id = index;
  plane_count = f.plane_count;
  fd_count = 1;
  fds = record (all_three none) { first = fd };
  planes = described_planes f;
  total_bytes_used = f.buffer_size;
  flags = f.flags;
}

unfoldable pub make_packet : CameraSource → Dequeued → CaptureBuffer → ℕ → FramePacket
make_packet s b buffer lease =
    let frame = shared_frame s b buffer in
    record {
      descriptor = describe frame s.frame_count b.index buffer.dma_buf_fd;
      handle = frame;
      lease = some lease;
    }

-- A new lease, under the next number, goes out with the packet.
abbrev pub lease_out : CameraSource → Dequeued → CaptureBuffer → CameraSource
lease_out s b buffer = record s {
  frame_count = u64 (s.frame_count + 1);
  dma_buf_frame_count = u64 (s.dma_buf_frame_count + 1);
  context = record (s.context) { active_leases = s.context.active_leases + 1 };
  leases = s.leases ++ new_dma_buf_lease b.index true ∷ [];
  packets = make_packet s b buffer (length s.leases) ∷ s.packets;
}

abbrev pub exhausted : CameraSource → Dequeued → CameraSource
exhausted s b =
    requeue_buffer
      (drop_frame (record s { lease_exhausted_count = u64 (s.lease_exhausted_count + 1) })) b.index
      b.accepted

abbrev pub is_exported : CaptureBuffer → Bool
is_exported b = elim b.dma_buf_fd [ none ↦ false | some fd ↦ b.dma_buf_exported ]

-- Whether the frame is done with; it goes the other way when not.
unfoldable pub handle_dma_buf : CameraSource → Dequeued → CaptureBuffer → CameraSource × Bool
handle_dma_buf s b buffer =
    if not (is_exported buffer)
    then (s, false)
    else (if leb s.lease_max s.context.active_leases
        then (exhausted s b, true)
        else (if not s.frame_packet_callback then (s, false) else (lease_out s b buffer, true)))

unfoldable pub should_use_dma_buf_path : CameraSource → Bool
should_use_dma_buf_path s = s.dma_buf_path_enabled && s.frame_packet_callback

abbrev pub handle_buffer : CameraSource → Dequeued → CaptureBuffer → CameraSource
handle_buffer s b buffer =
    let (t, done) = handle_dma_buf s b buffer in
    if should_use_dma_buf_path s && done then t else handle_copy s b buffer

-- HandleDequeuedBuffer; an index that is out of range gives no buffer.
abbrev pub handle_indexed : CameraSource → Dequeued → Option CaptureBuffer → CameraSource
handle_indexed s b none = drop_frame s
handle_indexed s b (some buffer) = handle_buffer s b buffer

unfoldable pub handle_dequeued : CameraSource → Dequeued → CameraSource
handle_dequeued s b = handle_indexed s b (get_elem? s.buffers b.index)

-- A turn of CaptureLoop that VIDIOC_DQBUF serves.
unfoldable pub capture : CameraSource → Dequeued → CameraSource
capture s b = handle_dequeued (note s (dequeued b.index)) b

-- The callback of a lease, for as long as the source lives.
unfoldable pub requeue_lease : CameraSource → ℕ → Bool → CameraSource
requeue_lease s i ok =
    let t = record s {
      context = record (s.context) { active_leases = s.context.active_leases - 1 };
    } in
    elim s.context.device_fd [
      | none ↦ t
      | some fd ↦ if not s.context.active then t else requeue_buffer t i ok
    ]

abbrev pub requeue_each : CameraSource → List ℕ → Bool → CameraSource
requeue_each s [] ok = s
requeue_each s (i ∷ is) ok = requeue_each (requeue_lease s i ok) is ok

-- The last owner of lease `k` lets go of it, or an owner releases it early.
abbrev pub release_of : CameraSource → ℕ → Option DmaBufFrameLease → Bool → CameraSource
release_of s k none ok = s
release_of s k (some l) ok =
    let (l', calls) = release_dma_buf l in
    requeue_each (record s { leases = set s.leases k l' }) calls ok

unfoldable pub release_lease : CameraSource → ℕ → Bool → CameraSource
release_lease s k ok = release_of s k (get_elem? s.leases k) ok
