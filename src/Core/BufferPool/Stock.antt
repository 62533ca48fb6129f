-- ===== src/Core/BufferPool/Stock.antt =====
-- The free queue of the buffer pool against its slots, operation by operation.
use camera_subsystem.Prelude.{
  ℕ, ◌+◌, ◌^◌, ◌<◌, ◌≡◌, refl, true, false, some, Option-cases, Bool-cases, List, [], ◌∷◌, length,
  get_elem?, tally, count, get_elem?-lt, tally-le-length, length-append, count-append, arith, inl,
  inr,
}
use camera_subsystem.Core.BufferPool.{
  BufferState, free, in_use, in_flight, error, BufferEntry, BufferPool, Stats, set_state,
  leave_state, is_lent, same_state, acquire, release_internal, mark_in_flight, cancel_in_flight,
  mark_error, entry_of,
}
use camera_subsystem.Core.BufferPool.Slots.{
  vacant, lent, length-set_state, get_elem?-set_state, tally-set_state, entry_of-found,
}

-- The pool after `Initialize`, between two operations: a slot's id is queued once if the slot is
-- free and never otherwise, and the counters follow.
pub record IsSound (p : BufferPool) : Type 0 where
  pub ready : p.initialized ≡ true
  pub listed : (i : ℕ) → count i p.free_ids ≡ vacant (get_elem? p.buffers i)
  pub few : length p.buffers < 2 ^ 32
  pub guarded : p.active_guards ≡ tally is_lent p.buffers
  pub counted : p.stats.total ≡ length p.buffers
  pub fresh : p.stats.available ≡ length p.free_ids
  pub stocked : length p.free_ids + tally is_lent p.buffers ≡ length p.buffers

-- The head of the free queue names a free slot.
pub front_vacant :
    (p : BufferPool) (id : ℕ) (rest : List ℕ)
    → IsSound p
    → p.free_ids ≡ id ∷ rest
    → (e : BufferEntry) × (get_elem? p.buffers id ≡ some e) × (is_lent e ≡ false)
front_vacant p id rest v h = elim (Option-cases (get_elem? p.buffers id)) [
  | inl e ↦ absurd (ground (arith, v.listed id))
  | inr (x, e) ↦ (x, e, ground (arith, v.listed id))
]

acquire_from-IsSound :
    (p : BufferPool) (xs : List ℕ) → IsSound p → p.free_ids ≡ xs → IsSound (acquire p).0
unfolding acquire
acquire_from-IsSound p [] v h = record {
  ready = ground (arith, v.ready);
  listed = λ i. ground (arith, v.ready, v.listed i);
  few = ground arith;
  guarded = ground arith;
  counted = ground arith;
  fresh = ground arith;
  stocked = ground arith;
}
acquire_from-IsSound p (id ∷ rest) v h =
    let (e, found, free_one) = front_vacant p id rest v h in
    rw (v.ready, h, acquire)
      (record {
        ready = refl;
        listed = λ i. ground (arith, v.listed i, get_elem?-set_state p.buffers id in_use e i found);
        few = ground (arith, length-set_state p.buffers id in_use);
        guarded = ground (
          arith,
          tally-set_state p.buffers id in_use is_lent e found,
          tally-le-length is_lent p.buffers,
        );
        counted = ground (arith, length-set_state p.buffers id in_use);
        fresh = ground arith;
        stocked = ground (
          arith,
          tally-set_state p.buffers id in_use is_lent e found,
          length-set_state p.buffers id in_use,
        );
      })

-- Every `Acquire`, granted or refused, keeps the pool sound.
pub acquire-IsSound : (p : BufferPool) → IsSound p → IsSound (acquire p).0
acquire-IsSound p v = acquire_from-IsSound p p.free_ids v refl

-- A lent slot that takes another lent state leaves the stock as it was.
relabel-IsSound :
    (p : BufferPool) (id : ℕ) (s : BufferState) (e : BufferEntry) (q : BufferPool)
    → IsSound p
    → get_elem? p.buffers id ≡ some e
    → is_lent e ≡ true
    → same_state s free ≡ false
    → q ≡ record p { buffers = set_state p.buffers id s; stats = q.stats }
    → q.stats.total ≡ p.stats.total
    → q.stats.available ≡ p.stats.available
    → IsSound q
relabel-IsSound p id s e q v found out keep_out shape tot av = record {
  ready = ground (arith, v.ready);
  listed = λ i. ground (arith, v.listed i, get_elem?-set_state p.buffers id s e i found);
  few = ground (arith, length-set_state p.buffers id s);
  guarded = ground (arith, tally-set_state p.buffers id s is_lent e found);
  counted = ground (arith, length-set_state p.buffers id s);
  fresh = ground arith;
  stocked =
      ground
        (arith, tally-set_state p.buffers id s is_lent e found, length-set_state p.buffers id s);
}

pub mark_in_flight-IsSound : (p : BufferPool) (id : ℕ) → IsSound p → IsSound (mark_in_flight p id)
unfolding mark_in_flight
mark_in_flight-IsSound p id v = elim (Option-cases (entry_of p id)) [
  | inl e ↦ rw (e, mark_in_flight) v
  | inr (x, e) ↦ elim (Bool-cases (same_state x.state in_use)) [
    | inl held ↦
        rw (e, mark_in_flight, held)
          (relabel-IsSound p id in_flight x _ v (entry_of-found p id x e) (ground arith) refl refl
            refl refl)
    | inr other ↦ rw (e, mark_in_flight, other) v
  ]
]

pub cancel_in_flight-IsSound :
    (p : BufferPool) (id : ℕ) → IsSound p → IsSound (cancel_in_flight p id)
unfolding cancel_in_flight
cancel_in_flight-IsSound p id v = elim (Option-cases (entry_of p id)) [
  | inl e ↦ rw (e, cancel_in_flight) v
  | inr (x, e) ↦ elim (Bool-cases (same_state x.state in_flight)) [
    | inl held ↦
        rw (e, cancel_in_flight, held)
          (relabel-IsSound p id in_use x _ v (entry_of-found p id x e) (ground arith) refl refl refl
            refl)
    | inr other ↦ rw (e, cancel_in_flight, other) v
  ]
]

-- `id` names a slot that is lent, as the id of a guard that has not been released does.
abbrev pub IsOut : BufferPool → ℕ → Type 0
IsOut p id = lent (get_elem? p.buffers id) ≡ 1

pub out_entry :
    (p : BufferPool) (id : ℕ)
    → IsSound p
    → IsOut p id
    → (e : BufferEntry) × (entry_of p id ≡ some e)
      × (get_elem? p.buffers id ≡ some e)
      × (is_lent e ≡ true)
out_entry p id v out = elim (Option-cases (get_elem? p.buffers id)) [
  | inl e ↦ absurd (ground arith)
  | inr (x, e) ↦ (x, ground (arith, v.ready, get_elem?-lt p.buffers id x e), e, ground arith)
]

pub mark_error-IsSound :
    (p : BufferPool) (id : ℕ) → IsSound p → IsOut p id → IsSound (mark_error p id)
unfolding mark_error
mark_error-IsSound p id v out =
    let (x, e, found, held) = out_entry p id v out in
    rw (e, mark_error) (relabel-IsSound p id error x _ v found held refl refl refl refl)

leave_state-total : (s : BufferState) (t : Stats) → (leave_state s t).total ≡ t.total
unfolding leave_state
leave_state-total free t = refl
leave_state-total in_use t = refl
leave_state-total in_flight t = refl
leave_state-total error t = refl

-- Giving a lent slot back queues its id once and frees one guard.
pub release_internal-IsSound :
    (p : BufferPool) (id : ℕ) → IsSound p → IsOut p id → IsSound (release_internal p id)
unfolding release_internal
release_internal-IsSound p id v out =
    let (x, e, found, held) = out_entry p id v out in
    let change = tally-set_state p.buffers id free is_lent x found in
    rw (e, release_internal)
      (record {
        ready = v.ready;
        listed = λ i. ground (
          arith,
          v.listed i,
          get_elem?-set_state p.buffers id free x i found,
          count-append i p.free_ids (id ∷ []),
        );
        few = ground (arith, length-set_state p.buffers id free);
        guarded = ground (arith, change);
        counted =
            ground (arith, leave_state-total x.state p.stats, length-set_state p.buffers id free);
        fresh = refl;
        stocked =
            ground (
              arith,
              change,
              length-append p.free_ids (id ∷ []),
              length-set_state p.buffers id free,
            );
      })
