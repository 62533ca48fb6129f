-- ===== src/Camera/Leases.antt =====
-- The capture loop and the lease callbacks of src/camera/camera_source.cpp keep every buffer in one
-- place, however frames and releases interleave.
use camera_subsystem.Core.FrameLease.{release_dma_buf, DmaBufFrameLease}
use camera_subsystem.Prelude.{
  ℕ, zero, suc, ◌-◌, ◌≤◌, ◌<◌, ◌≡◌, refl, sym, ap, subst, ◌∙◌, ◌⊎◌, inl, inr, Bool, true, false,
  Option, none, some, List, [], ◌∷◌, arith, leb, if◌then◌else◌, Bool-cases, Option-cases, length,
  get_elem?, set, count, bytes_eq, nat_eq,
}
use camera_subsystem.Camera.Device.{
  set_frame_packet_callback, CaptureBuffer, CameraSource, note, dequeued,
}
use camera_subsystem.Core.BufferPool.Ownership.{Shared, System}
use camera_subsystem.Camera.Capture.{
  Dequeued, requeue_buffer, copy_into, handle_copy, handle_dma_buf, handle_buffer, is_exported,
  should_use_dma_buf_path, capture, requeue_lease, release_lease, handle_dequeued, release_of,
  handle_indexed, requeue_each,
}
use camera_subsystem.Camera.Queue.{
  Holdings, holdings, returned, leased, IsCapturing, taken, driver_queue, returned-IsCapturing,
  leased-IsCapturing, HasCallbacks-at, settled-IsCapturing,
}

holdings-requeue :
    (s : CameraSource) (i : ℕ) (ok : Bool)
    → ok ≡ true
    → holdings (requeue_buffer s i ok) ≡ returned (holdings s) i
unfolding requeue_buffer
holdings-requeue s i ok e = rw e refl

holdings-copy_into :
    (s : CameraSource) (b : Dequeued) (buffer : CaptureBuffer) (system : System) (o : Option Shared)
    → holdings (copy_into s b buffer system o) ≡ holdings s
holdings-copy_into s b buffer system none = refl
holdings-copy_into s b buffer system (some g) = refl

holdings-handle_copy :
    (s : CameraSource) (b : Dequeued) (buffer : CaptureBuffer)
    → b.accepted ≡ true
    → holdings (handle_copy s b buffer) ≡ returned (holdings s) b.index
unfolding handle_copy
holdings-handle_copy s b buffer e =
    holdings-requeue _ b.index b.accepted e
    ∙ ap (λ h. returned h b.index) (holdings-copy_into s b buffer _ _)

-- What a dequeued buffer leads to.
unfoldable Handled : CameraSource → Holdings → ℕ → Type 0
Handled s h i =
    (holdings s ≡ returned h i)
    ⊎ ((h.context.active_leases < h.lease_max) × (holdings s ≡ leased h i))

handle_dma_buf-Handled :
    (s : CameraSource) (b : Dequeued) (buffer : CaptureBuffer)
    → b.accepted ≡ true
    → (handle_dma_buf s b buffer).1 ≡ true
    → Handled (handle_dma_buf s b buffer).0 (holdings s) b.index
unfolding handle_dma_buf Handled
handle_dma_buf-Handled s b buffer e done = elim (Bool-cases (is_exported buffer)) [
  | inr plain ↦ absurd (ground (arith, done, plain))
  | inl shared ↦ elim (Bool-cases (leb s.lease_max s.context.active_leases)) [
    | inl full ↦ rw (shared, full) (inl (holdings-requeue _ b.index b.accepted e))
    | inr room ↦ elim (Bool-cases s.frame_packet_callback) [
      | inr none_set ↦ absurd (ground (arith, done, shared, room, none_set))
      | inl given ↦ rw (shared, room, given) (inr (ground (arith, room), refl))
    ]
  ]
]

handle_buffer-Handled :
    (s : CameraSource) (b : Dequeued) (buffer : CaptureBuffer)
    → b.accepted ≡ true
    → Handled (handle_buffer s b buffer) (holdings s) b.index
unfolding Handled
handle_buffer-Handled s b buffer e = elim (Bool-cases (should_use_dma_buf_path s)) [
  | inr off ↦ rw off (inl (holdings-handle_copy s b buffer e))
  | inl on ↦ elim (Bool-cases ((handle_dma_buf s b buffer).1)) [
    | inr plain ↦ rw (on, plain) (inl (holdings-handle_copy s b buffer e))
    | inl done ↦ rw (on, done) (handle_dma_buf-Handled s b buffer e done)
  ]
]

Handled-IsCapturing :
    (s : CameraSource) (h : Holdings) (i : ℕ)
    → 0 < count i h.queue
    → IsCapturing h
    → Handled s (taken h i) i
    → IsCapturing (holdings s)
unfolding Handled
Handled-IsCapturing s h i there c (inl e) =
    subst IsCapturing (sym e) (returned-IsCapturing h i there c)
Handled-IsCapturing s h i there c (inr (room, e)) =
    subst IsCapturing (sym e) (leased-IsCapturing h i there room c)

get_elem?-none {ℓ} : {A : Type ℓ} (xs : List A) (i : ℕ) → get_elem? xs i ≡ none → length xs ≤ i
get_elem?-none [] i h = omega arith
get_elem?-none (x ∷ xs) zero h = cc
get_elem?-none (x ∷ xs) (suc i) h = omega (arith, get_elem?-none xs i h)

set_same {ℓ} :
    {A : Type ℓ} (xs : List A) (k : ℕ) (x : A) → get_elem? xs k ≡ some x → set xs k x ≡ xs
set_same [] k x h = refl
set_same (y ∷ xs) zero x h = ground arith
set_same (y ∷ xs) (suc k) x h = ap (λ zs. y ∷ zs) (set_same xs k x h)

capture-IsCapturing :
    (s : CameraSource) (b : Dequeued)
    → 0 < count b.index (driver_queue s.calls)
    → b.accepted ≡ true
    → IsCapturing (holdings s)
    → IsCapturing (holdings (capture s b))
unfolding capture handle_dequeued
capture-IsCapturing s b there e c = elim (Option-cases (get_elem? s.buffers b.index)) [
  | inl beyond ↦
      absurd (ground (arith, there, c.held_once b.index, get_elem?-none s.buffers b.index beyond))
  | inr (buffer, found) ↦
      let t = note s (dequeued b.index) in
      subst (λ o. IsCapturing (holdings (handle_indexed t b o))) (sym found)
        (Handled-IsCapturing _ (holdings s) b.index there c (handle_buffer-Handled t b buffer e))
]

-- The callback of a lease that was out, in a source that captures.
holdings-requeue_lease :
    (s : CameraSource) (i fd : ℕ)
    → s.context.device_fd ≡ some fd
    → s.context.active ≡ true
    → holdings (requeue_lease s i true) ≡ record (holdings s) {
      queue = i ∷ driver_queue s.calls;
      context = record (s.context) { active_leases = s.context.active_leases - 1 };
    }
unfolding requeue_lease requeue_buffer
holdings-requeue_lease s i fd e a = rw (e, a) refl

release_dma_buf_old : (l : DmaBufFrameLease) → l.released ≡ true → release_dma_buf l ≡ (l, [])
unfolding release_dma_buf
release_dma_buf_old l e =
    ap
      (λ c.
        if c
        then (l, [])
        else (record l { released = true }, if l.has_callback then l.buffer_id ∷ [] else []))
      e

release_dma_buf_out :
    (l : DmaBufFrameLease)
    → l.released ≡ false
    → l.has_callback ≡ true
    → release_dma_buf l ≡ (record l { released = true }, l.buffer_id ∷ [])
unfolding release_dma_buf
release_dma_buf_out l e f =
    let new : DmaBufFrameLease = record l { released = true } in
    ap (λ c. if c then (l, []) else (new, if l.has_callback then l.buffer_id ∷ [] else [])) e
    ∙ ap (λ c. (new, if c then l.buffer_id ∷ [] else [])) f

-- The source after a release gave a lease and the calls of its callback.
abbrev released_to : CameraSource → ℕ → DmaBufFrameLease × List ℕ → Holdings
released_to s k (l, calls) =
    holdings (requeue_each (record s { leases = set s.leases k l }) calls true)

release_of-IsCapturing :
    (s : CameraSource) (k : ℕ) (l : DmaBufFrameLease)
    → get_elem? s.leases k ≡ some l
    → IsCapturing (holdings s)
    → IsCapturing (holdings (release_of s k (some l) true))
release_of-IsCapturing s k l there c =
    let called = HasCallbacks-at s.leases k l c.callbacks there in
    let t = record s { leases = set s.leases k (record l { released = true }) } in
    elim (Bool-cases l.released) [
      | inl old ↦ subst IsCapturing (sym (ap (released_to s k) (release_dma_buf_old l old))) (
          subst (λ ls. IsCapturing (record (holdings s) { leases = ls }))
            (sym (set_same s.leases k l there)) c)
      | inr out ↦
          subst IsCapturing
            (sym (
              ap (released_to s k) (release_dma_buf_out l out called)
              ∙ holdings-requeue_lease t l.buffer_id c.opened.0 c.opened.1 c.active))
            (settled-IsCapturing (holdings s) k l there out c)
    ]

release_lease-IsCapturing :
    (s : CameraSource) (k : ℕ)
    → IsCapturing (holdings s)
    → IsCapturing (holdings (release_lease s k true))
unfolding release_lease
release_lease-IsCapturing s k c = elim (Option-cases (get_elem? s.leases k)) [
  | inl gone ↦ rw gone c
  | inr (l, there) ↦
      subst (λ o. IsCapturing (holdings (release_of s k o true))) (sym there)
        (release_of-IsCapturing s k l there c)
]

-- What happens to a source that captures: the device gives a buffer that waits in it, an owner
-- releases a lease, and a callback is set; the device takes a buffer back that it gave.
pub data Step : CameraSource → CameraSource → Type 0 where
  captures :
      (s : CameraSource) (b : Dequeued)
      → 0 < count b.index (driver_queue s.calls)
      → b.accepted ≡ true
      → Step s (capture s b)
  releases : (s : CameraSource) (k : ℕ) → Step s (release_lease s k true)
  sets_packet_callback : (s : CameraSource) (f : Bool) → Step s (set_frame_packet_callback s f)

pub data Reach (s : CameraSource) : CameraSource → Type 0 where
  here : Reach s s
  next : {t u : CameraSource} → Reach s t → Step t u → Reach s u

Step-IsCapturing :
    {s t : CameraSource} → Step s t → IsCapturing (holdings s) → IsCapturing (holdings t)
unfolding set_frame_packet_callback
Step-IsCapturing (captures s b there e) c = capture-IsCapturing s b there e c
Step-IsCapturing (releases s k) c = release_lease-IsCapturing s k c
Step-IsCapturing (sets_packet_callback s f) c = c

pub Reach-IsCapturing :
    {s t : CameraSource} → IsCapturing (holdings s) → Reach s t → IsCapturing (holdings t)
Reach-IsCapturing c here = c
Reach-IsCapturing c (next r st) = Step-IsCapturing st (Reach-IsCapturing c r)
