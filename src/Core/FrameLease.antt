-- ===== src/Core/FrameLease.antt =====
-- src/core/frame_lease.cpp: the leases that a frame's consumers share. A shared BufferGuard is its
-- place in the system of Ownership; the callback of a DMA-BUF lease is known by its calls.
use camera_subsystem.Prelude.{
  ℕ, zero, suc, ◌≡◌, refl, ap, Bool, true, false, Option, none, some, List, [], ◌∷◌, ◌++◌,
  if◌then◌else◌, bytes_eq, nat_eq,
}
use camera_subsystem.Core.BufferPool.Ownership.{Shared, System, drops, owned, step}

pub record HeapFrameLease : Type 0 where
  pub guard : Option ℕ
  pub released : Bool

abbrev pub new_heap_lease : ℕ → HeapFrameLease
new_heap_lease guard = record { guard = some guard; released = false }

-- `guard_.reset()` lets go of the lease's share of the guard.
abbrev pub drop_guard : System → Option ℕ → System
drop_guard s none = s
drop_guard s (some g) = step s (drops g)

unfoldable pub release_heap : System → HeapFrameLease → System × HeapFrameLease
release_heap s l =
    if l.released then (s, l) else (drop_guard s l.guard, record { guard = none; released = true })

abbrev pub id_of : Option Shared → ℕ
id_of none = 0
id_of (some g) = g.guard.id

unfoldable pub heap_buffer_id : System → HeapFrameLease → ℕ
heap_buffer_id s l = elim l.guard [ none ↦ 0 | some g ↦ id_of (owned s g) ]

pub record DmaBufFrameLease : Type 0 where
  pub buffer_id : ℕ
  pub has_callback : Bool
  pub released : Bool

abbrev pub new_dma_buf_lease : ℕ → Bool → DmaBufFrameLease
new_dma_buf_lease buffer_id has_callback = record {
  buffer_id = buffer_id;
  has_callback = has_callback;
  released = false;
}

-- The lease, and the buffers that the callback is called for.
unfoldable pub release_dma_buf : DmaBufFrameLease → DmaBufFrameLease × List ℕ
release_dma_buf l =
    if l.released
    then (l, [])
    else (record l { released = true }, if l.has_callback then l.buffer_id ∷ [] else [])

-- Several releases of one lease, the one of the destructor among them.
unfoldable pub release_heap_times : ℕ → System → HeapFrameLease → System × HeapFrameLease
release_heap_times zero s l = (s, l)
release_heap_times (suc n) s l = let (s', l') = release_heap s l in release_heap_times n s' l'

unfoldable pub release_dma_buf_times : ℕ → DmaBufFrameLease → DmaBufFrameLease × List ℕ
release_dma_buf_times zero l = (l, [])
release_dma_buf_times (suc n) l =
    let (l', calls) = release_dma_buf l in
    let (l'', later) = release_dma_buf_times n l' in (l'', calls ++ later)

heap_settled :
    (n : ℕ) (s : System) (g : Option ℕ)
    → let l : HeapFrameLease = record { guard = g; released = true } in
      release_heap_times n s l ≡ (s, l)
unfolding release_heap_times release_heap
heap_settled zero s g = refl
heap_settled (suc n) s g = heap_settled n s g

dma_buf_settled :
    (n id : ℕ) (c : Bool)
    → let l : DmaBufFrameLease = record { buffer_id = id; has_callback = c; released = true } in
      release_dma_buf_times n l ≡ (l, [])
unfolding release_dma_buf_times release_dma_buf
dma_buf_settled zero id c = refl
dma_buf_settled (suc n) id c = dma_buf_settled n id c

-- However often a heap lease is released, once or more, its share of the guard is let go of once.
pub heap_lease_drops_once :
    (n : ℕ) (s : System) (g : ℕ)
    → (release_heap_times (suc n) s (new_heap_lease g)).0 ≡ step s (drops g)
unfolding release_heap_times release_heap
heap_lease_drops_once n s g = ap (λ out. out.0) (heap_settled n (step s (drops g)) none)

-- However often a DMA-BUF lease with a callback is released, once or more, the callback is called
-- once, for the lease's buffer.
pub dma_buf_lease_requeues_once :
    (n id : ℕ) → (release_dma_buf_times (suc n) (new_dma_buf_lease id true)).1 ≡ id ∷ []
unfolding release_dma_buf_times release_dma_buf
dma_buf_lease_requeues_once n id = ap (λ out. id ∷ out.1) (dma_buf_settled n id true)
