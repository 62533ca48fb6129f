-- ===== src/Tests/CameraTests.antt =====
-- Tests of the capture (src/camera/camera_source.cpp) and of the signals (src/utils/
-- signal_handler.cpp), and the theorems applied at concrete inputs.
use camera_subsystem.Prelude.{
  ℕ, ◌+◌, ◌≤◌, ◌≡◌, refl, Bool, true, none, some, [], ◌∷◌, arith, length, tally, count, bytes_eq,
  nat_eq,
}
use camera_subsystem.Core.Types.{nv12}
use camera_subsystem.Core.FrameDescriptor.{is_packet_valid}
use camera_subsystem.Core.FrameLease.{release_dma_buf}
use camera_subsystem.Camera.Device.{
  CaptureBuffer, stop_stream, CameraSource, set_frame_packet_callback, new_source, close_device,
  start_stream, cleanup_dma_buf_exports, cleanup_buffers,
}
use camera_subsystem.Camera.Formats.{from_v4l2_pixel_format, Fourccs}
use camera_subsystem.Camera.Capture.{
  Dequeued, capture, release_lease, handle_dequeued, should_use_dma_buf_path, handle_dma_buf,
  make_packet, requeue_lease, requeue_buffer,
}
use camera_subsystem.Camera.Queue.{driver_queue, is_out, is_holding}
use camera_subsystem.Camera.Leases.{captures, releases, sets_packet_callback, Reach, here, next}
use camera_subsystem.Camera.Starvation.{buffers_held_once, restart_starves}
use camera_subsystem.Camera.Packets.{leased_packet_valid}
use camera_subsystem.Utils.SignalHandler.{
  sigint, new_signal_handler, initialize as init_signals, handle_signal, initialized_recurses,
  register_signal, is_valid_signal, set_default_stop_callback,
}
use camera_subsystem.Core.CameraConfig.{CameraConfig, get_default}
use camera_subsystem.Core.CameraConfig as Config
use camera_subsystem.Core.BufferPool.{initialize, clear, new_pool}
use camera_subsystem.Camera.Setup.{
  Answers, stop, open_device, configure_device, init_dma_buf_export, init_mmap, initialize_source,
  start,
}

abbrev test_fourccs : Fourccs
test_fourccs = record {
  of_nv12 = 1;
  of_yuyv = 2;
  of_rgb24 = 3;
  of_rgb32 = 4;
  of_mjpeg = 5;
  of_jpeg = 6;
  of_h264 = 7;
  of_hevc = 8;
}

-- A device with four buffers that exports them and takes every call.
abbrev test_answers : Answers
test_answers = record {
  opened = some 7;
  capabilities = some (true, true);
  negotiated = some (640, 480, 1);
  granted = some 4;
  queried = λ i. some 460800;
  mapped = λ i. some (4096 + i);
  exported = λ i. some (20 + i);
  accepted = λ i. true;
  stopped = true;
}

abbrev test_frame : ℕ → Dequeued
test_frame i = record {
  index = i;
  bytes_used = 460800;
  sequence = 0;
  timestamp = 5;
  address = 4096;
  uses = λ k. [];
  accepted = true;
}

unfoldable initialized_source : CameraSource × Bool
initialized_source = initialize_source test_fourccs new_source get_default test_answers

unfoldable started_source : CameraSource × Bool
unfolding initialized_source
started_source = start initialized_source.0 true

initialized_source-done : initialized_source.1 ≡ true
unfolding initialized_source initialize_source new_source get_default stop close_device
    cleanup_dma_buf_exports cleanup_buffers open_device configure_device init_mmap
    init_dma_buf_export Config.is_valid initialize clear from_v4l2_pixel_format new_pool
initialized_source-done = refl

started_source-done : started_source.1 ≡ true
unfolding started_source initialized_source initialize_source new_source get_default stop
    close_device cleanup_dma_buf_exports cleanup_buffers open_device configure_device init_mmap
    init_dma_buf_export Config.is_valid initialize clear from_v4l2_pixel_format new_pool start
    start_stream
started_source-done = refl

started_source_queue : driver_queue started_source.0.calls ≡ 3 ∷ 2 ∷ 1 ∷ 0 ∷ []
unfolding started_source initialized_source initialize_source new_source get_default stop
    close_device cleanup_dma_buf_exports cleanup_buffers open_device configure_device init_mmap
    init_dma_buf_export Config.is_valid initialize clear from_v4l2_pixel_format new_pool start
    start_stream
started_source_queue = refl

-- Buffers 3 and 1 go out to a consumer, and the one lease comes back.
abbrev step_listen : CameraSource
step_listen = set_frame_packet_callback started_source.0 true

abbrev step_third : CameraSource
step_third = capture step_listen (test_frame 3)

abbrev step_first : CameraSource
step_first = capture step_third (test_frame 1)

step_third_waits : count 3 (driver_queue step_listen.calls) ≡ 1
unfolding started_source initialized_source initialize_source new_source get_default stop
    close_device cleanup_dma_buf_exports cleanup_buffers open_device configure_device init_mmap
    init_dma_buf_export Config.is_valid initialize clear from_v4l2_pixel_format new_pool start
    start_stream set_frame_packet_callback
step_third_waits = refl

step_first_waits : count 1 (driver_queue step_third.calls) ≡ 1
unfolding started_source initialized_source initialize_source new_source get_default stop
    close_device cleanup_dma_buf_exports cleanup_buffers open_device configure_device init_mmap
    init_dma_buf_export Config.is_valid initialize clear from_v4l2_pixel_format new_pool start
    start_stream set_frame_packet_callback capture handle_dequeued should_use_dma_buf_path
    handle_dma_buf
step_first_waits = refl

step_first_leased : step_first.context.active_leases ≡ 2
unfolding started_source initialized_source initialize_source new_source get_default stop
    close_device cleanup_dma_buf_exports cleanup_buffers open_device configure_device init_mmap
    init_dma_buf_export Config.is_valid initialize clear from_v4l2_pixel_format new_pool start
    start_stream set_frame_packet_callback capture handle_dequeued should_use_dma_buf_path
    handle_dma_buf
step_first_leased = refl

abbrev step_last : CameraSource
step_last = release_lease step_first 0 true

listened_run : Reach started_source.0 step_last
listened_run =
    next
      (next
        (next (next here (sets_packet_callback started_source.0 true))
          (captures step_listen (test_frame 3) (omega (arith, step_third_waits)) refl))
        (captures step_third (test_frame 1) (omega (arith, step_first_waits)) refl))
      (releases step_first 0)

no_leases : new_source.leases ≡ []
unfolding new_source
no_leases = refl

step_last_slots : length step_last.buffers ≡ 4
unfolding started_source initialized_source initialize_source new_source get_default stop
    close_device cleanup_dma_buf_exports cleanup_buffers open_device configure_device init_mmap
    init_dma_buf_export Config.is_valid initialize clear from_v4l2_pixel_format new_pool start
    start_stream set_frame_packet_callback capture handle_dequeued should_use_dma_buf_path
    handle_dma_buf release_lease release_dma_buf requeue_lease requeue_buffer
step_last_slots = refl

buffers_held_once_example :
    (count 1 (driver_queue step_last.calls) + tally (is_holding 1) step_last.leases ≡ 1)
    × (step_last.context.active_leases ≡ tally is_out step_last.leases)
    × (length step_last.buffers ≤ length (driver_queue step_last.calls) + step_last.lease_max)
unfolding started_source initialized_source new_source
buffers_held_once_example =
    buffers_held_once test_fourccs new_source get_default test_answers true step_last 1 tt refl refl
      initialized_source-done started_source-done listened_run (omega (arith, step_last_slots))

restarted_source-done : (start (stop started_source.0 true) true).1 ≡ true
unfolding started_source initialized_source initialize_source new_source get_default stop
    close_device cleanup_dma_buf_exports cleanup_buffers open_device configure_device init_mmap
    init_dma_buf_export Config.is_valid initialize clear from_v4l2_pixel_format new_pool start
    start_stream stop_stream
restarted_source-done = refl

started_source_runs : (started_source.0.is_running ≡ true) × (started_source.0.streaming ≡ true)
unfolding started_source initialized_source initialize_source new_source get_default stop
    close_device cleanup_dma_buf_exports cleanup_buffers open_device configure_device init_mmap
    init_dma_buf_export Config.is_valid initialize clear from_v4l2_pixel_format new_pool start
    start_stream stop_stream
started_source_runs = (refl, refl)

restart_starves_example :
    ((start (stop started_source.0 true) true).0.is_running ≡ true)
    × (driver_queue (start (stop started_source.0 true) true).0.calls ≡ [])
restart_starves_example =
    restart_starves started_source.0 true started_source_runs.0 started_source_runs.1
      restarted_source-done

abbrev test_buffer : CaptureBuffer
test_buffer = record {
  start = some 4096;
  length = 460800;
  dma_buf_fd = some 20;
  dma_buf_exported = true;
}

abbrev sized_source : CameraSource
sized_source = record new_source {
  config = record new_source.config { width = 640; height = 480; format = nv12 };
}

leased_packet_valid_example :
    is_packet_valid (make_packet sized_source (test_frame 2) test_buffer 0) ≡ true
leased_packet_valid_example =
    leased_packet_valid sized_source (test_frame 2) test_buffer 0 refl refl (omega arith)
      (omega arith) (omega arith) (omega arith)

signals_initialized : (init_signals new_signal_handler true true true).1 ≡ true
unfolding init_signals new_signal_handler register_signal is_valid_signal set_default_stop_callback
signals_initialized = refl

initialized_recurses_example :
    handle_signal 5 (init_signals new_signal_handler true true true).0 sigint ≡ none
initialized_recurses_example =
    initialized_recurses new_signal_handler true true true 5 sigint signals_initialized
