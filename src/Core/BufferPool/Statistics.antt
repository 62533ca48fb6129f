-- ===== src/Core/BufferPool/Statistics.antt =====
-- The `in_use` and `in_flight` statistics of src/core/buffer_pool.cpp against the slots.
use camera_subsystem.Prelude.{
  ℕ, ◌+◌, ◌-◌, ◌≡◌, refl, inl, inr, some, List, [], ◌∷◌, arith, if◌then◌else◌, Bool-cases,
  Option-cases, get_elem?, tally, get_elem?-lt,
}
use camera_subsystem.Core.BufferPool.{
  BufferState, BufferEntry, BufferPool, Stats, free, in_use, in_flight, error, set_state, is_lent,
  same_state, acquire, release_internal, mark_in_flight, cancel_in_flight, mark_error, entry_of,
  leave_state,
}
use camera_subsystem.Core.BufferPool.Slots.{
  stands, tally-set_state, entry_of-found, get_elem?-set_state, length-set_state,
}
use camera_subsystem.Core.BufferPool.Stock.{IsSound, IsOut, front_vacant, out_entry}

-- The counters say how many slots stand in each state, and no slot is in error.
pub record IsExact (p : BufferPool) : Type 0 where
  pub held : p.stats.in_use_now ≡ tally (stands in_use) p.buffers
  pub flying : p.stats.in_flight_now ≡ tally (stands in_flight) p.buffers
  pub clean : tally (stands error) p.buffers ≡ 0

pub tally-states :
    (bs : List BufferEntry)
    → tally is_lent bs
      ≡ tally (stands in_use) bs + tally (stands in_flight) bs + tally (stands error) bs
tally-states [] = refl
tally-states (b ∷ bs) = ground (arith, tally-states bs)

-- A write moves one slot from the tally of its old state to that of the new one.
module _ (p : BufferPool) (id : ℕ) (s : BufferState) (e : BufferEntry)
    (found : get_elem? p.buffers id ≡ some e) where
  moved :
      (t : BufferState)
      → tally (stands t) (set_state p.buffers id s) + (if same_state e.state t then 1 else 0)
        ≡ tally (stands t) p.buffers + (if same_state s t then 1 else 0)
  moved t = tally-set_state p.buffers id s (stands t) e found

acquire_from-IsExact :
    (p : BufferPool) (xs : List ℕ) → IsSound p → IsExact p → p.free_ids ≡ xs → IsExact (acquire p).0
unfolding acquire
acquire_from-IsExact p [] v x h =
    rw (v.ready, h, acquire) (record { held = x.held; flying = x.flying; clean = x.clean })
acquire_from-IsExact p (id ∷ rest) v x h =
    let (e, found, vacant_one) = front_vacant p id rest v h in
    rw (v.ready, h, acquire)
      (record {
        held = ground (arith, x.held, moved p id in_use e found in_use);
        flying = ground (arith, x.flying, moved p id in_use e found in_flight);
        clean = ground (arith, x.clean, moved p id in_use e found error);
      })

pub acquire-IsExact : (p : BufferPool) → IsSound p → IsExact p → IsExact (acquire p).0
acquire-IsExact p v x = acquire_from-IsExact p p.free_ids v x refl

pub mark_in_flight-IsExact : (p : BufferPool) (id : ℕ) → IsExact p → IsExact (mark_in_flight p id)
unfolding mark_in_flight
mark_in_flight-IsExact p id x = elim (Option-cases (entry_of p id)) [
  | inl e ↦ rw (e, mark_in_flight) x
  | inr (b, e) ↦
      let m = moved p id in_flight b (entry_of-found p id b e) in
      rw (e, mark_in_flight)
        (elim (Bool-cases (same_state b.state in_use)) [
          | inl held ↦ rw held (record {
            held = ground (arith, x.held, held, m in_use);
            flying = ground (arith, x.flying, held, m in_flight);
            clean = ground (arith, x.clean, held, m error);
          })
          | inr other ↦ rw other x
        ])
]

pub cancel_in_flight-IsExact :
    (p : BufferPool) (id : ℕ) → IsExact p → IsExact (cancel_in_flight p id)
unfolding cancel_in_flight
cancel_in_flight-IsExact p id x = elim (Option-cases (entry_of p id)) [
  | inl e ↦ rw (e, cancel_in_flight) x
  | inr (b, e) ↦
      let m = moved p id in_use b (entry_of-found p id b e) in
      rw (e, cancel_in_flight)
        (elim (Bool-cases (same_state b.state in_flight)) [
          | inl held ↦ rw held (record {
            held = ground (arith, x.held, held, m in_use);
            flying = ground (arith, x.flying, held, m in_flight);
            clean = ground (arith, x.clean, held, m error);
          })
          | inr other ↦ rw other x
        ])
]

leave_state-in_use :
    (s : BufferState) (t : Stats)
    → (leave_state s t).in_use_now
      ≡ (if same_state s in_use then t.in_use_now - 1 else t.in_use_now)
unfolding leave_state
leave_state-in_use free t = refl
leave_state-in_use in_use t = ground arith
leave_state-in_use in_flight t = refl
leave_state-in_use error t = refl

leave_state-in_flight :
    (s : BufferState) (t : Stats)
    → (leave_state s t).in_flight_now
      ≡ (if same_state s in_flight then t.in_flight_now - 1 else t.in_flight_now)
unfolding leave_state
leave_state-in_flight free t = refl
leave_state-in_flight in_use t = refl
leave_state-in_flight in_flight t = ground arith
leave_state-in_flight error t = refl

pub release_internal-IsExact :
    (p : BufferPool) (id : ℕ) → IsSound p → IsOut p id → IsExact p → IsExact (release_internal p id)
unfolding release_internal
release_internal-IsExact p id v out x =
    let (b, e, found, held) = out_entry p id v out in
    let m = moved p id free b found in
    rw (e, release_internal)
      (record {
        held = ground (arith, x.held, leave_state-in_use b.state p.stats, m in_use);
        flying = ground (arith, x.flying, leave_state-in_flight b.state p.stats, m in_flight);
        clean = ground (arith, x.clean, m error);
      })

release_internal-found :
    (p : BufferPool) (id : ℕ) (x : BufferEntry)
    → entry_of p id ≡ some x
    → ((release_internal p id).buffers ≡ set_state p.buffers id free)
      × ((release_internal p id).stats.in_use_now ≡ (leave_state x.state p.stats).in_use_now)
unfolding release_internal
release_internal-found p id x h = rw (h, release_internal) (refl, refl)

mark_error-found :
    (p : BufferPool) (id : ℕ) (e : BufferEntry)
    → entry_of p id ≡ some e
    → mark_error p id ≡ record p { buffers = set_state p.buffers id error }
unfolding mark_error
mark_error-found p id e h = rw (h, mark_error) refl

-- On a sound pool, marking a buffer that is in use as in error and then giving it back leaves the
-- `in_use` statistic as it was, although one slot fewer is in use afterwards.
pub mark_error_overcounts :
    (p : BufferPool) (id : ℕ) (e : BufferEntry)
    → IsSound p
    → get_elem? p.buffers id ≡ some e
    → e.state ≡ in_use
    → let q = release_internal (mark_error p id) id in
      (q.stats.in_use_now ≡ p.stats.in_use_now)
      × (tally (stands in_use) q.buffers + 1 ≡ tally (stands in_use) p.buffers)
mark_error_overcounts p id e v found used =
    let shut : entry_of p id ≡ some e =
      ground (arith, v.ready, get_elem?-lt p.buffers id e found) in
    rw (mark_error-found p id e shut) (
      ground (
        arith,
        release_internal-found marked id broken entry,
        leave_state-in_use error p.stats,
        moved p id error e found in_use,
        moved marked id free broken there in_use,
      ))
  where
    marked : BufferPool
    marked = record p { buffers = set_state p.buffers id error }

    broken : BufferEntry
    broken = record e { state = error }

    there : get_elem? marked.buffers id ≡ some broken
    there = ground (arith, get_elem?-set_state p.buffers id error e id found)

    entry : entry_of marked id ≡ some broken
    entry = ground (
      arith,
      v.ready,
      there,
      length-set_state p.buffers id error,
      get_elem?-lt p.buffers id e found,
    )
