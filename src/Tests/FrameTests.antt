-- ===== src/Tests/FrameTests.antt =====
-- Frames, their descriptors and their leases on small inputs (src/core, src/ipc).
use camera_subsystem.Prelude.{
  ◌+◌, ◌≡◌, refl, true, false, none, some, [], ◌∷◌, arith, if◌then◌else◌, length, count, bytes_eq,
  nat_eq,
}
use camera_subsystem.Core.Types.{mjpeg, dma_buf}
use camera_subsystem.Core.FrameHandle.{
  Three, all_three, at, FrameHandle, new_handle, in_bounds, get_plane_data, get_plane_size,
  plane_reads_in_bounds,
}
use camera_subsystem.Core.FrameDescriptor.{FramePlaneDescriptor, FrameDescriptor, each_below}
use camera_subsystem.Core.FrameDescriptor as Descriptor
use camera_subsystem.Core.FrameHandle as Handle
use camera_subsystem.Core.FrameLease.{
  new_heap_lease, new_dma_buf_lease, release_heap_times, release_dma_buf_times,
  dma_buf_lease_requeues_once, heap_lease_drops_once,
}
use camera_subsystem.Core.BufferPool.Ownership.{acquires, drops, run, step, System}
use camera_subsystem.Core.BufferPool.Ownership.Histories.{start}
use camera_subsystem.Ipc.DataPlane.{
  make_data_descriptor, is_data_descriptor_valid, Delivery, receive_data_descriptor,
  received_fds_accounted,
}
use camera_subsystem.Ipc.Descriptors.{uses_its_length, made_descriptor_valid}
use camera_subsystem.Ipc.Transfer.{
  interrupted, moved, Tallied, move_full, transfer_accounted, interruptions_ignored,
}

abbrev mapped_frame : FrameHandle
mapped_frame = record new_handle {
  width = 640;
  height = 480;
  format = mjpeg;
  plane_count = 1;
  plane_size = all_three 4096;
  virtual_address = some 1000;
  buffer_size = 4096;
}

mapped_frame-valid : Handle.is_valid mapped_frame ≡ true
unfolding Handle.is_valid
mapped_frame-valid = refl

plane_reads_in_bounds_example :
    (in_bounds (get_plane_data mapped_frame 5) ≡ true)
    × (in_bounds (get_plane_size mapped_frame 5) ≡ true)
plane_reads_in_bounds_example = plane_reads_in_bounds mapped_frame 5 mapped_frame-valid

abbrev one_lent : System
one_lent = run (start 1 64) (acquires ∷ [])

three_heap_releases : (release_heap_times 3 one_lent (new_heap_lease 0)).0 ≡ step one_lent (drops 0)
three_heap_releases = heap_lease_drops_once 2 one_lent 0

dma_buf_lease_requeues_once_example :
    (release_dma_buf_times 3 (new_dma_buf_lease 2 true)).1 ≡ 2 ∷ []
dma_buf_lease_requeues_once_example = dma_buf_lease_requeues_once 2 2

abbrev one_plane : FramePlaneDescriptor
one_plane = record { fd_index = 0; offset = 0; stride = 640; length = 4096; bytes_used = 4000 }

abbrev dma_frame : FrameDescriptor
dma_frame = record {
  frame_id = 7;
  camera_id = 0;
  timestamp_ns = 9;
  sequence = 7;
  width = 640;
  height = 480;
  pixel_format = mjpeg;
  memory_type = dma_buf;
  buffer_id = 1;
  plane_count = 1;
  fd_count = 1;
  fds = record { first = some 5; second = none; third = none };
  planes = all_three one_plane;
  total_bytes_used = 4000;
  flags = 0;
}

dma_frame-valid : Descriptor.is_valid dma_frame ≡ true
unfolding Descriptor.is_valid
dma_frame-valid = refl

made_descriptor_valid_example :
    is_data_descriptor_valid (make_data_descriptor dma_frame)
    ≡ each_below dma_frame.plane_count (λ i. uses_its_length (at dma_frame.planes i))
made_descriptor_valid_example = made_descriptor_valid dma_frame dma_frame-valid refl

-- A descriptor that its own check accepts and the receiver refuses.
overfull_refused :
    let d = record dma_frame { planes = all_three (record one_plane { bytes_used = 5000 }) } in
    (Descriptor.is_valid d ≡ true) × (is_data_descriptor_valid (make_data_descriptor d) ≡ false)
unfolding Descriptor.is_valid is_data_descriptor_valid make_data_descriptor
overfull_refused = (refl, refl)

-- A whole message with two file descriptors, where its descriptor says one.
abbrev surplus : Delivery
surplus = record {
  received = 216;
  descriptor = make_data_descriptor dma_frame;
  rights = some (8 ∷ 9 ∷ []);
}

received_fds_accounted_example :
    let r = receive_data_descriptor (some 4) 3 surplus in
    (count 9 r.kept + count 9 r.closed ≡ 1)
    × (length r.kept ≡ (if r.success then surplus.descriptor.fd_count else 0))
    × ((if r.success then length r.closed else 0) ≡ 0)
received_fds_accounted_example = received_fds_accounted 4 3 surplus 9 refl (omega arith)

transfer_accounted_example : Tallied 8 (move_full 8 0 (moved 3 ∷ interrupted ∷ moved 5 ∷ []))
transfer_accounted_example =
    transfer_accounted 8 (moved 3 ∷ interrupted ∷ moved 5 ∷ []) (omega arith, (omega arith, tt))

interruptions_ignored_example :
    move_full 8 0 (interrupted ∷ moved 3 ∷ interrupted ∷ interrupted ∷ moved 5 ∷ [])
    ≡ move_full 8 0 (moved 3 ∷ moved 5 ∷ [])
interruptions_ignored_example =
    interruptions_ignored 8 0 (interrupted ∷ moved 3 ∷ interrupted ∷ interrupted ∷ moved 5 ∷ [])
