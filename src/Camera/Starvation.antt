-- ===== src/Camera/Starvation.antt =====
-- From Initialize to a running capture of src/camera/camera_source.cpp: the driver is never left
-- with fewer buffers than the code reserves for it; and what a second Start leaves it with.
use camera_subsystem.Camera.Queue.{
  driver_queue, holdings, HasCallbacks, is_out, is_holding, IsCapturing,
}
use camera_subsystem.Camera.Leases.{Reach, Reach-IsCapturing}
use camera_subsystem.Camera.Device.{
  start_stream, stop_stream, stream_on, CameraSource, close_device,
}
use camera_subsystem.Camera.Setup.{
  Answers, stop, start, begin_capture, open_device, configure_device, init_mmap, mmap_of,
  mapped_stage, configured_stage, give_up, with_pool, pool_size, and_then, initialize_source,
}
use camera_subsystem.Core.FrameLease.{DmaBufFrameLease}
use camera_subsystem.Prelude.{
  ℕ, ◌+◌, ◌≤◌, ◌<◌, ◌≡◌, refl, sym, ap, subst, ◌∙◌, inl, inr, Bool, true, false, not, ◌||◌, Option,
  none, some, List, [], ◌∷◌, arith, Bool-cases, length, tally, count, is_empty, bytes_eq, nat_eq,
}
use camera_subsystem.Core.CameraConfig.{CameraConfig}
use camera_subsystem.Core.CameraConfig as Config
use camera_subsystem.Core.BufferPool.{initialize}
use camera_subsystem.Camera.Formats.{Fourccs}
use camera_subsystem.Camera.Startup.{
  IsOpen, fd_unchanged_on, and_then-done, give_up-IsKept, stop-IsStopped, open_device-done,
  configure_device-done,
}
use camera_subsystem.Camera.Filling.{IsFilled, granted_buffers-done}

mmap_of-done :
    (s : CameraSource) (a : Answers) (o : Option ℕ)
    → (mmap_of s a o).1 ≡ true
    → IsOpen s (mmap_of s a o).0 × IsFilled (mmap_of s a o).0
mmap_of-done s a none h = absurd (ground (arith, h))
mmap_of-done s a (some n) h = granted_buffers-done s a n h

with_pool-done :
    (s : CameraSource)
    → (with_pool s).1 ≡ true
    → IsFilled s
    → IsOpen s (with_pool s).0 × IsFilled (with_pool s).0
with_pool-done s h f =
    elim (Bool-cases ((initialize s.system.pool s.config.buffer_count (pool_size s)).1)) [
      | inl ok ↦ rw ok (
        record { kept = record { leases = refl; count = refl; running = refl }; device = refl },
        record { counts = f.counts; total = f.total },
      )
      | inr bad ↦ absurd (ground (arith, h, bad))
    ]

-- A source that Initialize has made ready from `s`.
pub record IsReady (s t : CameraSource) : Type 0 where
  pub leases : t.leases ≡ s.leases
  pub count : t.context.active_leases ≡ s.context.active_leases
  pub idle : t.is_running ≡ false
  pub device : (fd : ℕ) × (t.device_fd ≡ some fd)
  pub filled : IsFilled t

-- The second stage of two, when both succeed.
and_then-carries :
    (p : CameraSource × Bool) (next : CameraSource → CameraSource × Bool)
    (failed : CameraSource → CameraSource) (P : CameraSource → Type 0)
    → (and_then p next failed).1 ≡ true
    → (p.1 ≡ true → (next p.0).1 ≡ true → P (next p.0).0)
    → P (and_then p next failed).0
and_then-carries p next failed P h step =
    let (first, e) = and_then-done p next failed h in
    subst (λ r. P r.0) (sym e) (step first (ap (λ r. r.1) (sym e) ∙ h))

unfoldable Waits : CameraSource → CameraSource → Type 0
Waits s t = IsOpen s t × IsFilled t

mapped_stage-Waits :
    (a : Answers) (s : CameraSource) → (mapped_stage a s).1 ≡ true → Waits s (mapped_stage a s).0
unfolding init_mmap Waits
mapped_stage-Waits a s h =
    and_then-carries (init_mmap s a) with_pool give_up (Waits s) h (λ first second.
      let (o1, f1) = mmap_of-done s a a.granted first in
      let (o2, f2) = with_pool-done (init_mmap s a).0 second f1 in (fd_unchanged_on o1 o2, f2))

configured_stage-Waits :
    (v : Fourccs) (a : Answers) (s : CameraSource)
    → (configured_stage v a s).1 ≡ true
    → Waits s (configured_stage v a s).0
unfolding Waits
configured_stage-Waits v a s h =
    and_then-carries (configure_device v s a.negotiated) (mapped_stage a) close_device (Waits s) h
      (λ first second.
        let (o, f) = mapped_stage-Waits a (configure_device v s a.negotiated).0 second in
        (fd_unchanged_on (configure_device-done v s a.negotiated) o, f))

initialize_source-IsReady :
    (v : Fourccs) (s : CameraSource) (config : CameraConfig) (a : Answers)
    → (initialize_source v s config a).1 ≡ true
    → IsReady s (initialize_source v s config a).0
unfolding initialize_source Waits
initialize_source-IsReady v s config a h = elim (Bool-cases (Config.is_valid config)) [
  | inr bad ↦ absurd (ground (arith, h, bad))
  | inl ok ↦
      let stopped = stop-IsStopped s a.stopped in
      let quiet = give_up-IsKept (stop s a.stopped) in
      let idle = record (give_up (stop s a.stopped)) { config = config } in
      let opened = (open_device idle a).0 in
      rw ok (
        and_then-carries (open_device idle a) (configured_stage v a) (λ t. t) (IsReady s)
          (ground (arith, h, ok))
          (λ first second.
            let (device, kept) = open_device-done idle a first in
            let (still, filled) = configured_stage-Waits v a opened second in
            record {
              leases = still.kept.leases ∙ kept.leases ∙ quiet.leases ∙ stopped.leases;
              count = still.kept.count ∙ kept.count ∙ quiet.count ∙ stopped.count;
              idle = still.kept.running ∙ kept.running ∙ quiet.running ∙ stopped.running;
              device = (device.0, still.device ∙ device.1);
              filled = filled;
            }))
]

tally-holding-le-out :
    (i : ℕ) (ls : List DmaBufFrameLease) → tally (is_holding i) ls ≤ tally is_out ls
tally-holding-le-out i [] = omega arith
tally-holding-le-out i (l ∷ ls) = ground (arith, tally-holding-le-out i ls)

-- What Start keeps, when it starts a source that is ready.
begin-IsCapturing :
    (s t u : CameraSource)
    → HasCallbacks s.leases
    → tally is_out s.leases ≡ 0
    → s.context.active_leases ≡ 0
    → IsReady s t
    → u.leases ≡ t.leases
    → u.context ≡ t.context
    → u.device_fd ≡ t.device_fd
    → u.buffers ≡ t.buffers
    → driver_queue u.calls ≡ driver_queue t.calls
    → IsCapturing (holdings (begin_capture u).0)
begin-IsCapturing s t u called none_out zero_count ready l c d b q =
    let none_left : tally is_out u.leases ≡ 0 = ap (tally is_out) (l ∙ ready.leases) ∙ none_out in
    let same_count : u.context.active_leases ≡ 0 =
      ap (λ x. x.active_leases) c ∙ ready.count ∙ zero_count in
    let queue_length : length (driver_queue u.calls) ≡ length u.buffers =
      ap length q ∙ ready.filled.total ∙ ap length (sym b) in
    let slots : length u.buffers ≡ length t.buffers = ap length b in
    record {
      opened = (ready.device.0, d ∙ ready.device.1);
      active = refl;
      callbacks = subst HasCallbacks (sym (l ∙ ready.leases)) called;
      held_once = λ i. ground (
        arith,
        ready.filled.counts i,
        ap (count i) q,
        slots,
        none_left,
        tally-holding-le-out i u.leases,
      );
      in_total = omega (arith, queue_length, none_left);
      counted = same_count ∙ sym none_left;
      bounded = omega (arith, same_count);
    }

start-IsCapturing :
    (s t : CameraSource) (on_ok : Bool)
    → HasCallbacks s.leases
    → tally is_out s.leases ≡ 0
    → s.context.active_leases ≡ 0
    → IsReady s t
    → (start t on_ok).1 ≡ true
    → IsCapturing (holdings (start t on_ok).0)
unfolding start start_stream
start-IsCapturing s t on_ok called none_out zero_count ready h =
    let idle = ready.idle in
    elim (Bool-cases (not (Config.is_valid t.config) || is_empty t.buffers)) [
      | inl unfit ↦ absurd (ground (arith, h, idle, unfit))
      | inr fit ↦ elim (Bool-cases t.streaming) [
        | inl on ↦
            rw (idle, fit, on)
              (begin-IsCapturing s t t called none_out zero_count ready refl refl refl refl refl)
        | inr off ↦ elim (Bool-cases on_ok) [
          | inl ok ↦
              let u = record t { streaming = true; calls = stream_on ∷ t.calls } in
              rw (idle, fit, off, ok)
                (begin-IsCapturing s t u called none_out zero_count ready refl refl refl refl refl)
          | inr bad ↦ absurd (ground (arith, h, idle, fit, off, bad))
        ]
      ]
    ]

captured-IsCapturing :
    (v : Fourccs) (s : CameraSource) (config : CameraConfig) (a : Answers) (on_ok : Bool)
    (u : CameraSource)
    → HasCallbacks s.leases
    → tally is_out s.leases ≡ 0
    → s.context.active_leases ≡ 0
    → (initialize_source v s config a).1 ≡ true
    → (start (initialize_source v s config a).0 on_ok).1 ≡ true
    → Reach (start (initialize_source v s config a).0 on_ok).0 u
    → IsCapturing (holdings u)
captured-IsCapturing v s config a on_ok u called none_out zero_count ready started r =
    Reach-IsCapturing
      (start-IsCapturing s _ on_ok called none_out zero_count
        (initialize_source-IsReady v s config a ready) started)
      r

-- When Initialize and Start have succeeded with no lease of an earlier stream out, then after any
-- frames and releases, with a device that takes back each buffer it gave, every capture buffer
-- waits in the driver or is held by one lease that is out, never both; the lease counter is the
-- number of leases out; and all but at most the lease limit of the buffers wait in the driver.
pub buffers_held_once :
    (v : Fourccs) (s : CameraSource) (config : CameraConfig) (a : Answers) (on_ok : Bool)
    (u : CameraSource) (i : ℕ)
    → HasCallbacks s.leases
    → tally is_out s.leases ≡ 0
    → s.context.active_leases ≡ 0
    → (initialize_source v s config a).1 ≡ true
    → (start (initialize_source v s config a).0 on_ok).1 ≡ true
    → Reach (start (initialize_source v s config a).0 on_ok).0 u
    → i < length u.buffers
    → (count i (driver_queue u.calls) + tally (is_holding i) u.leases ≡ 1)
      × (u.context.active_leases ≡ tally is_out u.leases)
      × (length u.buffers ≤ length (driver_queue u.calls) + u.lease_max)
buffers_held_once v s config a on_ok u i called none_out zero_count ready started r lt =
    let c = captured-IsCapturing v s config a on_ok u called none_out zero_count ready started r in
    (ground (arith, c.held_once i, lt), c.counted, omega (arith, c.in_total, c.counted, c.bounded))

-- Stop and then Start, both with success, leave no buffer in the driver: the stream runs without
-- one, since only Initialize queues them.
pub restart_starves :
    (s : CameraSource) (on_ok : Bool)
    → s.is_running ≡ true
    → s.streaming ≡ true
    → (start (stop s true) on_ok).1 ≡ true
    → ((start (stop s true) on_ok).0.is_running ≡ true)
      × (driver_queue (start (stop s true) on_ok).0.calls ≡ [])
unfolding start start_stream stop stop_stream
restart_starves s on_ok running streaming h =
    elim (Bool-cases (not (Config.is_valid s.config) || is_empty s.buffers)) [
      | inl unfit ↦ absurd (ground (arith, h, running, streaming, unfit))
      | inr fit ↦ elim (Bool-cases on_ok) [
        | inl ok ↦ rw (running, streaming, fit, ok) (refl, refl)
        | inr bad ↦ absurd (ground (arith, h, running, streaming, fit, bad))
      ]
    ]
