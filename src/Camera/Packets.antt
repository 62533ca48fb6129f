-- ===== src/Camera/Packets.antt =====
-- The packets that src/camera/camera_source.cpp hands out pass the checks of
-- src/core/frame_descriptor.cpp.
use camera_subsystem.Prelude.{
  ℕ, zero, suc, ◌*◌, ◌/◌, ◌^◌, ◌≤◌, ◌<◌, ◌≡◌, refl, inl, inr, true, false, some, arith, ltb, ◌==◌,
  Bool-cases, Option-cases, bytes_eq, nat_eq,
}
use camera_subsystem.Core.Words.{u32}
use camera_subsystem.Core.CameraConfig.{is_unknown}
use camera_subsystem.Core.FrameHandle.{FrameHandle}
use camera_subsystem.Core.FrameHandle as Handle
use camera_subsystem.Core.FrameDescriptor.{FramePacket, is_packet_valid}
use camera_subsystem.Core.FrameDescriptor as Descriptor
use camera_subsystem.Camera.Formats.{is_nv12, fill_frame_layout}
use camera_subsystem.Camera.Device.{CaptureBuffer, CameraSource}
use camera_subsystem.Camera.Capture.{
  Dequeued, used_size, shared_frame, describe, make_packet, is_exported,
}

u32_small : (n : ℕ) → n < 2 ^ 32 → u32 n ≡ n
u32_small n h = omega (arith, h)

factors_pos : (m n : ℕ) → 2 ≤ m * n → (0 < m) × (0 < n)
factors_pos zero n h = absurd (omega (arith, h))
factors_pos (suc m) zero h = absurd (omega (arith, h))
factors_pos (suc m) (suc n) h = (omega arith, omega arith)

pos_ltb : (n : ℕ) → 0 < n → ltb 0 n ≡ true
pos_ltb n h = ground (arith, h)

pos_== : (n : ℕ) → 0 < n → (n == 0) ≡ false
pos_== n h = ground (arith, h)

exported_fd : (b : CaptureBuffer) → is_exported b ≡ true → (n : ℕ) × (b.dma_buf_fd ≡ some n)
exported_fd b h = elim (Option-cases b.dma_buf_fd) [
  | inl e ↦ absurd (ground (arith, h, e))
  | inr found ↦ found
]

-- A packet made for an exported buffer is valid, when the negotiated size and format are known,
-- a frame has two pixels at least, and neither its pixels nor its bytes reach 2 ^ 32.
pub leased_packet_valid :
    (s : CameraSource) (b : Dequeued) (buffer : CaptureBuffer) (lease : ℕ)
    → is_exported buffer ≡ true
    → is_unknown s.config.format ≡ false
    → 2 ≤ s.config.width * s.config.height
    → s.config.width * s.config.height < 2 ^ 32
    → 0 < used_size b buffer
    → used_size b buffer < 2 ^ 32
    → is_packet_valid (make_packet s b buffer lease) ≡ true
unfolding is_packet_valid make_packet shared_frame describe fill_frame_layout Handle.is_valid
    Descriptor.is_valid
leased_packet_valid s b buffer lease exported known big small used fits =
    let (fd, e) = exported_fd buffer exported in
    let (wide, high) = factors_pos s.config.width s.config.height big in
    let some_width = pos_== s.config.width wide in
    let some_height = pos_== s.config.height high in
    let wide_enough = pos_ltb s.config.width wide in
    let high_enough = pos_ltb s.config.height high in
    let some_bytes = pos_== (used_size b buffer) used in
    let enough_bytes = pos_ltb (used_size b buffer) used in
    let bytes = u32_small (used_size b buffer) fits in
    let luma =
      pos_== (u32 (s.config.width * s.config.height)) (omega (arith, big, u32_small _ small)) in
    let chroma =
      pos_== (u32 (s.config.width * s.config.height) / 2) (omega (arith, big, u32_small _ small)) in
    elim (Bool-cases (is_nv12 s.config.format)) [
      | inl two ↦
          rw
            (
              two, e, known, some_width, some_height, some_bytes, wide_enough, high_enough,
              enough_bytes, luma, chroma,
            )
            refl
      | inr one ↦
          rw
            (
              one, e, known, some_width, some_height, some_bytes, wide_enough, high_enough,
              enough_bytes, bytes, some_bytes,
            )
            refl
    ]
