-- ===== src/Camera/Queue.antt =====
-- Who holds each capture buffer of src/camera/camera_source.cpp: the driver's queue, read off the
-- calls by the documented behaviour of V4L2, or a lease.
use camera_subsystem.Prelude.{
  ℕ, suc, ◌+◌, ◌≤◌, ◌<◌, ◌≡◌, inl, inr, Bool, true, not, ◌&&◌, some, List, [], ◌∷◌, arith, ltb,
  ◌==◌, if◌then◌else◌, Bool-cases, length, tally, count, bytes_eq, nat_eq, set, get_elem?,
  tally-append, ap, false, tally-set, zero, ◌-◌, refl, sym, ◌∙◌, none, ◌++◌,
}
use camera_subsystem.Core.FrameLease.{DmaBufFrameLease, new_dma_buf_lease}
use camera_subsystem.Camera.Device.{
  RequeueContext, DeviceCall, requested, queued, dequeued, closed_export, stream_on, stream_off,
  closed_device, CameraSource,
}

-- A queue without the first place of a number.
abbrev pub remove : ℕ → List ℕ → List ℕ
remove i [] = []
remove i (j ∷ js) = if j == i then js else j ∷ remove i js

pub count-remove :
    (i j : ℕ) (js : List ℕ)
    → 0 < count i js
    → count j (remove i js) + (if i == j then 1 else 0) ≡ count j js
count-remove i j [] h = absurd (omega (arith, h))
count-remove i j (k ∷ ks) h = elim (Bool-cases (k == i)) [
  | inl hit ↦ ground arith
  | inr miss ↦ ground (arith, count-remove i j ks (ground arith))
]

pub length-remove : (i : ℕ) (js : List ℕ) → 0 < count i js → suc (length (remove i js)) ≡ length js
length-remove i [] h = absurd (omega (arith, h))
length-remove i (k ∷ ks) h = elim (Bool-cases (k == i)) [
  | inl hit ↦ ground arith
  | inr miss ↦ ground (arith, length-remove i ks (ground arith))
]

-- The buffers that wait in the driver after the calls: VIDIOC_QBUF adds one, VIDIOC_DQBUF takes one
-- out, and VIDIOC_REQBUFS, VIDIOC_STREAMOFF and the last `close` leave none.
abbrev pub driver_queue : List DeviceCall → List ℕ
driver_queue [] = []
driver_queue (requested n ∷ log) = []
driver_queue (queued i ∷ log) = i ∷ driver_queue log
driver_queue (dequeued i ∷ log) = remove i (driver_queue log)
driver_queue (closed_export fd ∷ log) = driver_queue log
driver_queue (stream_on ∷ log) = driver_queue log
driver_queue (stream_off ∷ log) = []
driver_queue (closed_device ∷ log) = []

abbrev pub is_out : DmaBufFrameLease → Bool
is_out l = not l.released

abbrev pub is_holding : ℕ → DmaBufFrameLease → Bool
is_holding i l = not l.released && l.buffer_id == i

abbrev pub HasCallbacks : List DmaBufFrameLease → Type 0
HasCallbacks [] = Unit
HasCallbacks (l ∷ ls) = (l.has_callback ≡ true) × HasCallbacks ls

-- What the claims on the buffers read of a source.
pub record Holdings : Type 0 where
  pub queue : List ℕ
  pub context : RequeueContext
  pub leases : List DmaBufFrameLease
  pub slots : ℕ
  pub lease_max : ℕ

abbrev pub holdings : CameraSource → Holdings
holdings s = record {
  queue = driver_queue s.calls;
  context = s.context;
  leases = s.leases;
  slots = length s.buffers;
  lease_max = s.lease_max;
}

-- A source that captures: the requeue context belongs to an open device, each buffer waits in the
-- driver or is held by one lease, never both, and the counter counts the leases that are out.
pub record IsCapturing (h : Holdings) : Type 0 where
  pub opened : (fd : ℕ) × (h.context.device_fd ≡ some fd)
  pub active : h.context.active ≡ true
  pub callbacks : HasCallbacks h.leases
  pub held_once :
      (i : ℕ) → count i h.queue + tally (is_holding i) h.leases ≡ (if ltb i h.slots then 1 else 0)
  pub in_total : length h.queue + tally is_out h.leases ≡ h.slots
  pub counted : h.context.active_leases ≡ tally is_out h.leases
  pub bounded : h.context.active_leases ≤ h.lease_max

abbrev pub taken : Holdings → ℕ → Holdings
taken h i = record h { queue = remove i h.queue }

abbrev pub returned : Holdings → ℕ → Holdings
returned h i = record h { queue = i ∷ h.queue }

-- The holdings with a buffer leased that was taken out of the queue.
abbrev pub leased : Holdings → ℕ → Holdings
leased h i = record h {
  context = record (h.context) { active_leases = h.context.active_leases + 1 };
  leases = h.leases ++ new_dma_buf_lease i true ∷ [];
}

-- The holdings with lease `k`, which was out, released and its buffer requeued.
abbrev pub settled : Holdings → ℕ → DmaBufFrameLease → Holdings
settled h k l = record h {
  queue = l.buffer_id ∷ h.queue;
  context = record (h.context) { active_leases = h.context.active_leases - 1 };
  leases = set h.leases k (record l { released = true });
}

HasCallbacks-append :
    (ls : List DmaBufFrameLease) (l : DmaBufFrameLease)
    → HasCallbacks ls
    → l.has_callback ≡ true
    → HasCallbacks (ls ++ l ∷ [])
HasCallbacks-append [] l h e = (e, tt)
HasCallbacks-append (m ∷ ls) l h e = (h.0, HasCallbacks-append ls l h.1 e)

HasCallbacks-set :
    (ls : List DmaBufFrameLease) (k : ℕ) (l : DmaBufFrameLease)
    → HasCallbacks ls
    → l.has_callback ≡ true
    → HasCallbacks (set ls k l)
HasCallbacks-set [] k l h e = tt
HasCallbacks-set (m ∷ ls) zero l h e = (e, h.1)
HasCallbacks-set (m ∷ ls) (suc k) l h e = (h.0, HasCallbacks-set ls k l h.1 e)

pub HasCallbacks-at :
    (ls : List DmaBufFrameLease) (k : ℕ) (l : DmaBufFrameLease)
    → HasCallbacks ls
    → get_elem? ls k ≡ some l
    → l.has_callback ≡ true
HasCallbacks-at [] k l h e = cc
HasCallbacks-at (m ∷ ls) zero l h e =
    ap (λ o. elim o [ none ↦ true | some x ↦ x.has_callback ]) (sym e) ∙ h.0
HasCallbacks-at (m ∷ ls) (suc k) l h e = HasCallbacks-at ls k l h.1 e

pub returned-IsCapturing :
    (h : Holdings) (i : ℕ)
    → 0 < count i h.queue
    → IsCapturing h
    → IsCapturing (returned (taken h i) i)
returned-IsCapturing h i there c = record {
  opened = c.opened;
  active = c.active;
  callbacks = c.callbacks;
  held_once = λ j. ground (arith, c.held_once j, count-remove i j h.queue there);
  in_total = omega (arith, c.in_total, length-remove i h.queue there);
  counted = c.counted;
  bounded = c.bounded;
}

pub leased-IsCapturing :
    (h : Holdings) (i : ℕ)
    → 0 < count i h.queue
    → h.context.active_leases < h.lease_max
    → IsCapturing h
    → IsCapturing (leased (taken h i) i)
leased-IsCapturing h i there room c =
    let new : DmaBufFrameLease = new_dma_buf_lease i true in
    let out = tally-append is_out h.leases (new ∷ []) in
    record {
      opened = c.opened;
      active = c.active;
      callbacks = HasCallbacks-append h.leases new c.callbacks refl;
      held_once = λ j. ground (
        arith,
        c.held_once j,
        count-remove i j h.queue there,
        tally-append (is_holding j) h.leases (new ∷ []),
      );
      in_total = ground (arith, c.in_total, length-remove i h.queue there, out);
      counted = ground (arith, c.counted, out);
      bounded = omega (arith, room);
    }

pub settled-IsCapturing :
    (h : Holdings) (k : ℕ) (l : DmaBufFrameLease)
    → get_elem? h.leases k ≡ some l
    → l.released ≡ false
    → IsCapturing h
    → IsCapturing (settled h k l)
settled-IsCapturing h k l there out c =
    let new : DmaBufFrameLease = record l { released = true } in
    let change = tally-set is_out h.leases k l new there in
    record {
      opened = c.opened;
      active = c.active;
      callbacks =
          HasCallbacks-set h.leases k new c.callbacks
            (HasCallbacks-at h.leases k l c.callbacks there);
      held_once =
          λ j. ground (arith, c.held_once j, tally-set (is_holding j) h.leases k l new there);
      in_total = ground (arith, c.in_total, change);
      counted = ground (arith, c.counted, change);
      bounded = omega (arith, c.bounded);
    }
