-- ===== src/Camera/Filling.antt =====
-- InitMMap of src/camera/camera_source.cpp, as far as the queue of the driver goes: when it succeeds,
-- every capture buffer waits there once.
use camera_subsystem.Camera.Device.{
  queued, requested, note, CaptureBuffer, DeviceCall, CameraSource, cleanup_dma_buf_exports,
  close_export, closed_exports, without_export,
}
use camera_subsystem.Prelude.{
  ℕ, zero, suc, ◌+◌, ◌≡◌, refl, ap, ◌∙◌, inl, inr, Bool, true, false, ◌&&◌, Option, none, some,
  List, [], ◌∷◌, map, arith, ltb, leb, ◌==◌, if◌then◌else◌, Bool-cases, length, count, is_empty,
  bytes_eq, nat_eq,
}
use camera_subsystem.Core.Types.{io_dma_buf, io_method_code}
use camera_subsystem.Camera.Setup.{
  Answers, export_then, export_from, init_dma_buf_export, exported_source, queue_from,
  granted_buffers, map_from,
}
use camera_subsystem.Camera.Queue.{driver_queue}
use camera_subsystem.Camera.Startup.{IsOpen, fd_unchanged_on, fd_unchanged}

driver_queue-closed_exports :
    (bs : List CaptureBuffer) (log : List DeviceCall)
    → driver_queue (closed_exports bs log) ≡ driver_queue log
driver_queue-closed_exports [] log = refl
driver_queue-closed_exports (b ∷ bs) log =
    driver_queue-closed_exports bs (close_export b.dma_buf_fd log) ∙ closes b.dma_buf_fd
  where
    closes : (fd : Option ℕ) → driver_queue (close_export fd log) ≡ driver_queue log
    closes none = refl
    closes (some fd) = refl

length-map-without : (bs : List CaptureBuffer) → length (map without_export bs) ≡ length bs
length-map-without [] = refl
length-map-without (b ∷ bs) = ap suc (length-map-without bs)

length-export_then :
    (b : CaptureBuffer) (bs : List CaptureBuffer) (fd : Option ℕ)
    (later : List CaptureBuffer × Bool)
    → length later.0 ≡ length bs
    → length (export_then b bs fd later).0 ≡ suc (length bs)
length-export_then b bs none (rest, ok) e = refl
length-export_then b bs (some fd) (rest, ok) e = ap suc e

length-export_from :
    (a : Answers) (i : ℕ) (bs : List CaptureBuffer) → length (export_from a i bs).0 ≡ length bs
length-export_from a i [] = refl
length-export_from a i (b ∷ bs) =
    length-export_then b bs (a.exported i) _ (length-export_from a (suc i) bs)

-- What trying to export the buffers leaves alone.
pub record IsExportOf (s t : CameraSource) : Type 0 where
  pub open_still : IsOpen s t
  pub queue : driver_queue t.calls ≡ driver_queue s.calls
  pub slots : length t.buffers ≡ length s.buffers

init_dma_buf_export-IsExportOf :
    (s : CameraSource) (a : Answers) → IsExportOf s (init_dma_buf_export s a).0
unfolding init_dma_buf_export cleanup_dma_buf_exports
init_dma_buf_export-IsExportOf s a =
    let slots = length-export_from a 0 s.buffers in
    elim (Bool-cases (is_empty s.buffers)) [
      | inl e ↦ rw e record { open_still = fd_unchanged s; queue = refl; slots = refl }
      | inr e ↦ elim (Bool-cases ((export_from a 0 s.buffers).1)) [
        | inl ok ↦
            rw (e, ok)
              record {
                open_still = record {
                  kept = record { leases = refl; count = refl; running = refl };
                  device = refl;
                };
                queue = refl;
                slots = slots;
              }
        | inr bad ↦
            rw (e, bad)
              record {
                open_still = record {
                  kept = record { leases = refl; count = refl; running = refl };
                  device = refl;
                };
                queue = driver_queue-closed_exports ((export_from a 0 s.buffers).0) s.calls;
                slots = length-map-without ((export_from a 0 s.buffers).0) ∙ slots;
              }
      ]
    ]

exported_source-IsExportOf : (s : CameraSource) (a : Answers) → IsExportOf s (exported_source s a)
exported_source-IsExportOf s a =
    let e = init_dma_buf_export-IsExportOf s a in
    elim (Bool-cases (s.config.io_method == io_method_code io_dma_buf)) [
      | inl asked ↦ rw asked record {
        open_still = record {
          kept = record {
            leases = e.open_still.kept.leases;
            count = e.open_still.kept.count;
            running = e.open_still.kept.running;
          };
          device = e.open_still.device;
        };
        queue = e.queue;
        slots = e.slots;
      }
      | inr other ↦ rw other record { open_still = fd_unchanged s; queue = refl; slots = refl }
    ]

-- The state after VIDIOC_QBUF for `n` buffers from `i` on: each of them waits once more.
pub record IsQueuedFrom (s t : CameraSource) (i n : ℕ) : Type 0 where
  pub open_still : IsOpen s t
  pub slots : length t.buffers ≡ length s.buffers
  pub counts :
      (j : ℕ)
      → count j (driver_queue t.calls)
        ≡ count j (driver_queue s.calls) + (if leb i j && ltb j (i + n) then 1 else 0)
  pub total : length (driver_queue t.calls) ≡ length (driver_queue s.calls) + n

queue_from-IsQueuedFrom :
    (a : Answers) (i n : ℕ) (s : CameraSource)
    → (queue_from a i n s).1 ≡ true
    → IsQueuedFrom s (queue_from a i n s).0 i n
queue_from-IsQueuedFrom a i zero s h = record {
  open_still = fd_unchanged s;
  slots = refl;
  counts = λ j. ground arith;
  total = omega arith;
}
queue_from-IsQueuedFrom a i (suc n) s h = elim (Bool-cases (a.accepted i)) [
  | inr refused ↦ absurd (ground (arith, h, refused))
  | inl ok ↦
      let later = queue_from-IsQueuedFrom a (suc i) n (note s (queued i)) (ground (arith, h, ok)) in
      rw ok record {
        open_still = record {
          kept = record {
            leases = later.open_still.kept.leases;
            count = later.open_still.kept.count;
            running = later.open_still.kept.running;
          };
          device = later.open_still.device;
        };
        slots = later.slots;
        counts = λ j. ground (arith, later.counts j);
        total = omega (arith, later.total);
      }
]

-- A source whose buffers all wait in the driver.
pub record IsFilled (t : CameraSource) : Type 0 where
  pub counts :
      (j : ℕ) → count j (driver_queue t.calls) ≡ (if ltb j (length t.buffers) then 1 else 0)
  pub total : length (driver_queue t.calls) ≡ length t.buffers

pub granted_buffers-done :
    (s : CameraSource) (a : Answers) (n : ℕ)
    → (granted_buffers s a n).1 ≡ true
    → IsOpen s (granted_buffers s a n).0 × IsFilled (granted_buffers s a n).0
granted_buffers-done s a n h = elim (Bool-cases (ltb n 2)) [
  | inl few ↦ absurd (ground (arith, h, few))
  | inr enough ↦ elim (Bool-cases ((map_from a 0 n).1)) [
    | inr bad ↦ absurd (ground (arith, h, enough, bad))
    | inl ok ↦
        let mapped = record (note s (requested n)) {
          buffers = (map_from a 0 n).0;
          dma_buf_path_enabled = false;
          dma_buf_frame_count = 0;
          dma_buf_export_failures = 0;
          lease_exhausted_count = 0;
        } in
        let ready = exported_source mapped a in
        let e = exported_source-IsExportOf mapped a in
        let q =
          queue_from-IsQueuedFrom a 0 (length ready.buffers) ready
            (ground (arith, h, enough, ok)) in
        let o = fd_unchanged_on e.open_still q.open_still in
        rw (enough, ok)
          (
            record {
              kept = record {
                leases = o.kept.leases;
                count = o.kept.count;
                running = o.kept.running;
              };
              device = o.device;
            },
            record {
              counts = λ j. ground (arith, q.counts j, q.slots, ap (count j) e.queue);
              total = ground (arith, q.total, q.slots, ap length e.queue);
            },
          )
  ]
]
