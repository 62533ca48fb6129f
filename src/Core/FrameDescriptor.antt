-- ===== src/Core/FrameDescriptor.antt =====
-- src/core/frame_descriptor.cpp. A file descriptor below zero is none, an array of three is read
-- through `at`; a read outside one, which the counts rule out, fails the test it stands in.
use camera_subsystem.Prelude.{
  ℕ, zero, suc, ◌<◌, ◌≡◌, Bool, true, false, not, ◌&&◌, ◌||◌, Option, none, some, arith, ltb, ◌==◌,
  if◌then◌else◌, bytes_eq, nat_eq,
}
use camera_subsystem.Core.Types.{PixelFormat, MemoryType, dma_buf}
use camera_subsystem.Core.CameraConfig.{is_unknown}
use camera_subsystem.Core.FrameHandle.{Three, all_three, at, FrameHandle, is_null}
use camera_subsystem.Core.FrameHandle as Handle

abbrev pub max_frame_planes : ℕ
max_frame_planes = 3

abbrev pub max_frame_fds : ℕ
max_frame_fds = 3

abbrev pub invalid_frame_fd_index : ℕ
invalid_frame_fd_index = 0xFFFFFFFF

pub record FramePlaneDescriptor : Type 0 where
  pub fd_index : ℕ
  pub offset : ℕ
  pub stride : ℕ
  pub length : ℕ
  pub bytes_used : ℕ

pub record FrameDescriptor : Type 0 where
  pub frame_id : ℕ
  pub camera_id : ℕ
  pub timestamp_ns : ℕ
  pub sequence : ℕ
  pub width : ℕ
  pub height : ℕ
  pub pixel_format : PixelFormat
  pub memory_type : MemoryType
  pub buffer_id : ℕ
  pub plane_count : ℕ
  pub fd_count : ℕ
  pub fds : Three (Option ℕ)
  pub planes : Three FramePlaneDescriptor
  pub total_bytes_used : ℕ
  pub flags : ℕ

abbrev pub is_dma_buf : MemoryType → Bool
is_dma_buf dma_buf = true
is_dma_buf _ = false

-- `for (i = 0; i < n; ++i) if (!test(i)) return false;`
abbrev pub each_below : ℕ → (ℕ → Bool) → Bool
each_below zero test = true
each_below (suc n) test = test 0 && each_below n (λ i. test (suc i))

pub each_below-at :
    (n : ℕ) (test : ℕ → Bool) (i : ℕ) → each_below n test ≡ true → i < n → test i ≡ true
each_below-at zero test i h lt = absurd (omega (arith, lt))
each_below-at (suc n) test zero h lt = ground (arith, h)
each_below-at (suc n) test (suc i) h lt =
    each_below-at n (λ j. test (suc j)) i (ground (arith, h)) (omega (arith, lt))

abbrev pub fd_ok : Option (Option ℕ) → Bool
fd_ok none = false
fd_ok (some fd) = not (is_null fd)

abbrev pub dma_plane_ok : ℕ → Option FramePlaneDescriptor → Bool
dma_plane_ok fd_count none = false
dma_plane_ok fd_count (some p) = ltb p.fd_index fd_count && not (p.length == 0)

abbrev pub copy_plane_ok : Option FramePlaneDescriptor → Bool
copy_plane_ok none = false
copy_plane_ok (some p) = not (p.length == 0)

unfoldable pub is_valid : FrameDescriptor → Bool
is_valid d =
    if (d.width == 0)
      || (d.height == 0)
      || is_unknown d.pixel_format
      || (d.plane_count == 0)
      || ltb max_frame_planes d.plane_count
      || (d.total_bytes_used == 0)
    then false
    else (if is_dma_buf d.memory_type
        then not ((d.fd_count == 0) || ltb max_frame_fds d.fd_count)
          && each_below d.fd_count (λ i. fd_ok (at d.fds i))
          && each_below d.plane_count (λ i. dma_plane_ok d.fd_count (at d.planes i))
        else each_below d.plane_count (λ i. copy_plane_ok (at d.planes i)))

-- FramePacket; the lease is named by its number, a null one is none.
pub record FramePacket : Type 0 where
  pub descriptor : FrameDescriptor
  pub handle : FrameHandle
  pub lease : Option ℕ

unfoldable pub is_packet_valid : FramePacket → Bool
is_packet_valid p = is_valid p.descriptor && Handle.is_valid p.handle && not (is_null p.lease)
