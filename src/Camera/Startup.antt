-- ===== src/Camera/Startup.antt =====
-- Initialize of src/camera/camera_source.cpp: what its stages keep of the leases and the device.
use camera_subsystem.Camera.Device.{
  CameraSource, close_device, stop_stream, cleanup_dma_buf_exports, cleanup_buffers,
}
use camera_subsystem.Prelude.{
  ℕ, ◌≡◌, refl, sym, ◌∙◌, inl, inr, Bool, true, false, Option, none, some, arith, Bool-cases,
  Option-cases, bytes_eq, nat_eq,
}
use camera_subsystem.Camera.Formats.{Fourccs}
use camera_subsystem.Camera.Setup.{
  Answers, stop, opened_device, open_unless, open_device, configure_device, give_up, and_then,
  has_capabilities,
}

-- The same leases, the same count of them, and a source that runs no more than before.
pub record IsKept (s t : CameraSource) : Type 0 where
  pub leases : t.leases ≡ s.leases
  pub count : t.context.active_leases ≡ s.context.active_leases
  pub running : t.is_running ≡ s.is_running

pub keeps_all : (s : CameraSource) → IsKept s s
keeps_all s = record { leases = refl; count = refl; running = refl }

pub keeps_on : {s t u : CameraSource} → IsKept s t → IsKept t u → IsKept s u
keeps_on a b = record {
  leases = b.leases ∙ a.leases;
  count = b.count ∙ a.count;
  running = b.running ∙ a.running;
}

-- What a part of Initialize leaves alone, with the device that is open.
pub record IsOpen (s t : CameraSource) : Type 0 where
  pub kept : IsKept s t
  pub device : t.device_fd ≡ s.device_fd

pub fd_unchanged_on : {s t u : CameraSource} → IsOpen s t → IsOpen t u → IsOpen s u
fd_unchanged_on a b = record { kept = keeps_on a.kept b.kept; device = b.device ∙ a.device }

pub fd_unchanged : (s : CameraSource) → IsOpen s s
fd_unchanged s = record { kept = keeps_all s; device = refl }

pub and_then-done :
    (p : CameraSource × Bool) (next : CameraSource → CameraSource × Bool)
    (failed : CameraSource → CameraSource)
    → (and_then p next failed).1 ≡ true
    → (p.1 ≡ true) × (and_then p next failed ≡ next p.0)
and_then-done (s, true) next failed h = (refl, refl)
and_then-done (s, false) next failed h = absurd (bools_differ (sym h))
  where
    bools_differ : true ≡ false → ⊥
    bools_differ e = cc

close_device-IsKept : (s : CameraSource) → IsKept s (close_device s)
unfolding close_device
close_device-IsKept s = elim (Option-cases s.device_fd) [
  | inl e ↦ rw e record { leases = refl; count = refl; running = refl }
  | inr (fd, e) ↦ rw e record { leases = refl; count = refl; running = refl }
]

pub give_up-IsKept : (s : CameraSource) → IsKept s (give_up s)
unfolding cleanup_dma_buf_exports cleanup_buffers
give_up-IsKept s =
    keeps_on (record { leases = refl; count = refl; running = refl })
      (close_device-IsKept (cleanup_buffers (cleanup_dma_buf_exports s)))

-- After Stop, nothing runs and the leases are as before.
pub record IsStopped (s t : CameraSource) : Type 0 where
  pub leases : t.leases ≡ s.leases
  pub count : t.context.active_leases ≡ s.context.active_leases
  pub running : t.is_running ≡ false

pub stop-IsStopped : (s : CameraSource) (off_ok : Bool) → IsStopped s (stop s off_ok)
unfolding stop stop_stream
stop-IsStopped s off_ok = elim (Bool-cases s.is_running) [
  | inr idle ↦ rw idle record { leases = refl; count = refl; running = refl }
  | inl busy ↦ elim (Bool-cases s.streaming) [
    | inl on ↦ rw (busy, on) record { leases = refl; count = refl; running = refl }
    | inr off ↦ rw (busy, off) record { leases = refl; count = refl; running = refl }
  ]
]

pub open_device-done :
    (s : CameraSource) (a : Answers)
    → (open_device s a).1 ≡ true
    → ((fd : ℕ) × ((open_device s a).0.device_fd ≡ some fd)) × IsKept s (open_device s a).0
unfolding open_device
open_device-done s a h = unless s.device_fd refl h
  where
    opened :
        (o : Option ℕ)
        → (opened_device s o a).1 ≡ true
        → ((fd : ℕ) × ((opened_device s o a).0.device_fd ≡ some fd))
          × IsKept s (opened_device s o a).0
    opened none h = absurd (ground (arith, h))
    opened (some fd) h = elim (Bool-cases (has_capabilities a.capabilities)) [
      | inl e ↦ rw e ((fd, refl), record { leases = refl; count = refl; running = refl })
      | inr e ↦ absurd (ground (arith, h, e))
    ]

    unless :
        (o : Option ℕ)
        → s.device_fd ≡ o
        → (open_unless s o a).1 ≡ true
        → ((fd : ℕ) × ((open_unless s o a).0.device_fd ≡ some fd)) × IsKept s (open_unless s o a).0
    unless none e h = opened a.opened h
    unless (some fd) e h = ((fd, e), keeps_all s)

pub configure_device-done :
    (v : Fourccs) (s : CameraSource) (o : Option (ℕ × ℕ × ℕ)) → IsOpen s (configure_device v s o).0
unfolding configure_device
configure_device-done v s none = fd_unchanged s
configure_device-done v s (some (w, h, code)) = record {
  kept = record { leases = refl; count = refl; running = refl };
  device = refl;
}
