-- ===== src/Core/BufferPool/Lending.antt =====
-- What each operation of the pool does to the set of lent slots.
use camera_subsystem.Prelude.{
  ℕ, ◌≡◌, refl, inl, inr, true, false, Option, none, some, Option-cases, Bool-cases, List, [], ◌∷◌,
  length, get_elem?, if◌then◌else◌, ◌==◌, arith,
}
use camera_subsystem.Core.BufferPool.{
  BufferEntry, BufferPool, free, in_use, in_flight, error, BufferState, set_state, is_lent,
  same_state, acquire, release_internal, mark_in_flight, cancel_in_flight, mark_error, entry_of,
}
use camera_subsystem.Core.BufferPool.Slots.{
  lent, get_elem?-set_state, length-set_state, entry_of-found,
}
use camera_subsystem.Core.BufferPool.Stock.{IsSound, IsOut, front_vacant, out_entry}

abbrev pub lent_at : BufferPool → ℕ → ℕ
lent_at p i = lent (get_elem? p.buffers i)

-- `Acquire` lends one slot that was not lent, or nothing.
abbrev pub Lends : BufferPool → BufferPool → Option ℕ → Type 0
Lends p q none = (i : ℕ) → lent_at q i ≡ lent_at p i
Lends p q (some id) =
    (lent_at p id ≡ 0) × ((i : ℕ) → lent_at q i ≡ (if id == i then 1 else lent_at p i))

acquire_from-Lends :
    (p : BufferPool) (xs : List ℕ)
    → IsSound p
    → p.free_ids ≡ xs
    → Lends p (acquire p).0 (acquire p).1
unfolding acquire
acquire_from-Lends p [] v h = rw (v.ready, h, acquire) (λ i. refl)
acquire_from-Lends p (id ∷ rest) v h =
    let (e, found, vacant_one) = front_vacant p id rest v h in
    rw (v.ready, h, acquire)
      (ground arith, λ i. ground (arith, get_elem?-set_state p.buffers id in_use e i found))

pub acquire-Lends : (p : BufferPool) → IsSound p → Lends p (acquire p).0 (acquire p).1
acquire-Lends p v = acquire_from-Lends p p.free_ids v refl

relabel-lent :
    (p : BufferPool) (id i : ℕ) (s : BufferState) (e : BufferEntry)
    → get_elem? p.buffers id ≡ some e
    → is_lent e ≡ true
    → same_state s free ≡ false
    → lent (get_elem? (set_state p.buffers id s) i) ≡ lent_at p i
relabel-lent p id i s e found held out =
    ground (arith, get_elem?-set_state p.buffers id s e i found)

pub mark_in_flight-lent :
    (p : BufferPool) (id i : ℕ) → lent_at (mark_in_flight p id) i ≡ lent_at p i
unfolding mark_in_flight
mark_in_flight-lent p id i = elim (Option-cases (entry_of p id)) [
  | inl e ↦ rw (e, mark_in_flight) refl
  | inr (x, e) ↦ elim (Bool-cases (same_state x.state in_use)) [
    | inl held ↦
        rw (e, mark_in_flight, held)
          (relabel-lent p id i in_flight x (entry_of-found p id x e) (ground arith) refl)
    | inr other ↦ rw (e, mark_in_flight, other) refl
  ]
]

pub cancel_in_flight-lent :
    (p : BufferPool) (id i : ℕ) → lent_at (cancel_in_flight p id) i ≡ lent_at p i
unfolding cancel_in_flight
cancel_in_flight-lent p id i = elim (Option-cases (entry_of p id)) [
  | inl e ↦ rw (e, cancel_in_flight) refl
  | inr (x, e) ↦ elim (Bool-cases (same_state x.state in_flight)) [
    | inl held ↦
        rw (e, cancel_in_flight, held)
          (relabel-lent p id i in_use x (entry_of-found p id x e) (ground arith) refl)
    | inr other ↦ rw (e, cancel_in_flight, other) refl
  ]
]

pub mark_error-lent :
    (p : BufferPool) (id i : ℕ) → IsSound p → IsOut p id → lent_at (mark_error p id) i ≡ lent_at p i
unfolding mark_error
mark_error-lent p id i v out =
    let (x, e, found, held) = out_entry p id v out in
    rw (e, mark_error) (relabel-lent p id i error x found held refl)

pub release_internal-lent :
    (p : BufferPool) (id i : ℕ)
    → IsSound p
    → IsOut p id
    → lent_at (release_internal p id) i ≡ (if id == i then 0 else lent_at p i)
unfolding release_internal
release_internal-lent p id i v out =
    let (x, e, found, held) = out_entry p id v out in
    rw (e, release_internal) (ground (arith, get_elem?-set_state p.buffers id free x i found))

-- No operation adds or removes a slot.
length-acquire_from :
    (p : BufferPool) (xs : List ℕ)
    → (if p.initialized then p.free_ids else []) ≡ xs
    → length (acquire p).0.buffers ≡ length p.buffers
unfolding acquire
length-acquire_from p [] h = rw (h, acquire) refl
length-acquire_from p (id ∷ rest) h = rw (h, acquire) (length-set_state p.buffers id in_use)

pub length-acquire : (p : BufferPool) → length (acquire p).0.buffers ≡ length p.buffers
length-acquire p = length-acquire_from p _ refl

pub length-release_internal :
    (p : BufferPool) (id : ℕ) → length (release_internal p id).buffers ≡ length p.buffers
unfolding release_internal
length-release_internal p id = elim (Option-cases (entry_of p id)) [
  | inl e ↦ rw (e, release_internal) refl
  | inr (x, e) ↦ rw (e, release_internal) (length-set_state p.buffers id free)
]

pub length-mark_in_flight :
    (p : BufferPool) (id : ℕ) → length (mark_in_flight p id).buffers ≡ length p.buffers
unfolding mark_in_flight
length-mark_in_flight p id = elim (Option-cases (entry_of p id)) [
  | inl e ↦ rw (e, mark_in_flight) refl
  | inr (x, e) ↦ rw (e, mark_in_flight) (ground (arith, length-set_state p.buffers id in_flight))
]

pub length-cancel_in_flight :
    (p : BufferPool) (id : ℕ) → length (cancel_in_flight p id).buffers ≡ length p.buffers
unfolding cancel_in_flight
length-cancel_in_flight p id = elim (Option-cases (entry_of p id)) [
  | inl e ↦ rw (e, cancel_in_flight) refl
  | inr (x, e) ↦ rw (e, cancel_in_flight) (ground (arith, length-set_state p.buffers id in_use))
]

pub length-mark_error :
    (p : BufferPool) (id : ℕ) → length (mark_error p id).buffers ≡ length p.buffers
unfolding mark_error
length-mark_error p id = elim (Option-cases (entry_of p id)) [
  | inl e ↦ rw (e, mark_error) refl
  | inr (x, e) ↦ rw (e, mark_error) (length-set_state p.buffers id error)
]
