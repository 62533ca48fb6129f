-- ===== src/Ipc/Descriptors.antt =====
-- The message descriptors of src/ipc/camera_data_plane_v2.cpp against the frame descriptors of
-- src/core/frame_descriptor.cpp.
use camera_subsystem.Prelude.{
  ℕ, zero, suc, ◌≤◌, ◌<◌, ◌≡◌, refl, ap, ◌∙◌, inl, inr, Bool, true, false, not, ◌&&◌, ◌||◌, Option,
  none, some, arith, ltb, leb, ◌==◌, Bool-cases, bytes_eq, nat_eq,
}
use camera_subsystem.Core.Types.{dma_buf}
use camera_subsystem.Core.FrameHandle.{Three, at}
use camera_subsystem.Core.CameraConfig.{is_unknown}
use camera_subsystem.Core.FrameDescriptor.{
  max_frame_planes, max_frame_fds, FramePlaneDescriptor, FrameDescriptor, each_below, each_below-at,
  fd_ok, is_dma_buf, dma_plane_ok,
}
use camera_subsystem.Core.FrameDescriptor as Descriptor
use camera_subsystem.Ipc.DataPlane.{
  copy_planes, make_data_descriptor, data_plane_ok, is_data_descriptor_valid,
}

at-copy_planes :
    (n : ℕ) (p : Three FramePlaneDescriptor) (i : ℕ) → i < n → at (copy_planes n p) i ≡ at p i
at-copy_planes n p zero h = ground arith
at-copy_planes n p (suc zero) h = ground arith
at-copy_planes n p (suc (suc zero)) h = ground arith
at-copy_planes n p (suc (suc (suc i))) h = refl

-- A plane within its length.
abbrev pub uses_its_length : Option FramePlaneDescriptor → Bool
uses_its_length none = false
uses_its_length (some p) = leb p.bytes_used p.length

data_plane-ok :
    (n : ℕ) (o : Option FramePlaneDescriptor)
    → dma_plane_ok n o ≡ true
    → data_plane_ok n o ≡ uses_its_length o
data_plane-ok n none h = refl
data_plane-ok n (some p) h =
    let there : ltb p.fd_index n ≡ true = ground (arith, h) in
    let room : (p.length == 0) ≡ false = ground (arith, h) in rw (there, room) refl

each_below-same :
    (n : ℕ) (test test_too : ℕ → Bool)
    → ((i : ℕ) → i < n → test i ≡ test_too i)
    → each_below n test ≡ each_below n test_too
each_below-same zero test test_too h = refl
each_below-same (suc n) test test_too h =
    ap (λ x. x && each_below n (λ i. test (suc i))) (h 0 (omega arith))
    ∙ ap (λ x. test_too 0 && x)
        (each_below-same n (λ i. test (suc i)) (λ i. test_too (suc i))
          (λ i lt. h (suc i) (omega (arith, lt))))

-- The receiver accepts the message descriptor made of a valid DMA-BUF frame descriptor exactly when no
-- plane uses more bytes than it is long, which the check of the frame descriptor leaves open.
pub made_descriptor_valid :
    (d : FrameDescriptor)
    → Descriptor.is_valid d ≡ true
    → d.memory_type ≡ dma_buf
    → is_data_descriptor_valid (make_data_descriptor d)
      ≡ each_below d.plane_count (λ i. uses_its_length (at d.planes i))
unfolding Descriptor.is_valid is_data_descriptor_valid make_data_descriptor
made_descriptor_valid d valid dma =
    elim (Bool-cases (
      (d.width == 0)
      || (d.height == 0)
      || is_unknown d.pixel_format
      || (d.plane_count == 0)
      || ltb max_frame_planes d.plane_count
      || (d.total_bytes_used == 0))) [
        | inl bad ↦ absurd (ground (arith, valid, bad))
        | inr good ↦
            let tests : (not ((d.fd_count == 0) || ltb max_frame_fds d.fd_count)
                  && each_below d.fd_count (λ i. fd_ok (at d.fds i))
                  && each_below d.plane_count (λ i. dma_plane_ok d.fd_count (at d.planes i)))
                ≡ true =
              ground (arith, valid, good, dma) in
            let headers : (d.width == 0
                  || d.height == 0
                  || d.plane_count == 0
                  || ltb max_frame_planes d.plane_count
                  || d.fd_count == 0
                  || ltb max_frame_fds d.fd_count
                  || d.total_bytes_used == 0)
                ≡ false =
              ground (arith, good, tests) in
            let few : d.plane_count ≤ 3 = ground (arith, good) in
            let planes_ok : each_below d.plane_count (λ i. dma_plane_ok d.fd_count (at d.planes i))
                ≡ true =
              ground (arith, tests) in
            rw headers (
              each_below-same d.plane_count _ (λ i. uses_its_length (at d.planes i))
                (λ i lt.
                  ap (data_plane_ok d.fd_count)
                    (at-copy_planes _ d.planes i (omega (arith, few, lt)))
                  ∙ data_plane-ok d.fd_count (at d.planes i)
                      (each_below-at d.plane_count _ i planes_ok lt)))
      ]
