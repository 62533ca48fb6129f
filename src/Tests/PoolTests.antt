-- ===== src/Tests/PoolTests.antt =====
-- Small histories of the buffer pool (src/core/buffer_pool.cpp) and its guards.
use camera_subsystem.Core.BufferPool.Stock.{acquire-IsSound}
use camera_subsystem.Prelude.{
  ℕ, zero, suc, ◌+◌, ◌≡◌, refl, ◌≢◌, some, List, [], ◌∷◌, arith, get_elem?, tally, count, bytes_eq,
  nat_eq,
}
use camera_subsystem.Core.BufferPool.{
  in_use, in_flight, BufferEntry, BufferPool, new_pool, initialize, acquire, collect_leaks,
  get_stats, mark_error, release_internal, set_state,
}
use camera_subsystem.Core.BufferPool.Slots.{stands}
use camera_subsystem.Core.BufferPool.Setup.{initialize-IsSound}
use camera_subsystem.Core.BufferPool.Statistics.{mark_error_overcounts}
use camera_subsystem.Core.BufferPool.BufferGuard.{release, new_guard, release_once}
use camera_subsystem.Core.BufferPool.Ownership.{
  Shared, Action, acquires, shares, drops, marks_in_flight, take, let_go, step, run,
}
use camera_subsystem.Core.BufferPool.Ownership.Exclusive.{holders}
use camera_subsystem.Core.BufferPool.Ownership.Histories.{
  start, one_place, guards_exclusive, all_returned,
}
use camera_subsystem.Core.BufferPool.Ownership.Counters.{statistics_exact}

-- Two buffers are lent, one of them goes in flight with a second owner, the other comes back.
abbrev history : List Action
history = acquires ∷ acquires ∷ shares 0 ∷ marks_in_flight 0 ∷ drops 1 ∷ []

one_place_example :
    let s = run (start 2 64) history in count 1 s.pool.free_ids + holders 1 s.guards ≡ 1
one_place_example = one_place 2 64 history (omega arith) (omega arith) (omega arith) 1

abbrev both : List Action
both = acquires ∷ acquires ∷ []

abbrev guard_at : ℕ → Shared
guard_at id = record { guard = new_guard id; owners = 1 }

both_guards :
    (get_elem? (run (start 2 64) both).guards 0 ≡ some (guard_at 0))
    × (get_elem? (run (start 2 64) both).guards 1 ≡ some (guard_at 1))
unfolding run start step take acquire initialize new_pool set_state
both_guards = (refl, refl)

guards_exclusive_example : (guard_at 0).guard.id ≢ (guard_at 1).guard.id
guards_exclusive_example =
    guards_exclusive 2 64 both (omega arith) (omega arith) (omega arith) 0 1 (guard_at 0)
      (guard_at 1) (omega arith) both_guards.0 both_guards.1 refl refl

abbrev there_and_back : List Action
there_and_back = acquires ∷ drops 0 ∷ []

there_and_back-idle :
    (k : ℕ) (g : Shared)
    → get_elem? (run (start 2 64) there_and_back).guards k ≡ some g
    → g.owners ≡ 0
unfolding run start step take acquire initialize new_pool set_state let_go release release_internal
there_and_back-idle zero g h = ground (arith, h)
there_and_back-idle (suc k) g h = cc

all_returned_example :
    let s = run (start 2 64) there_and_back in
    (collect_leaks s.pool.buffers ≡ [])
    × ((get_stats s.pool).available ≡ 2)
    × (s.pool.active_guards ≡ 0)
all_returned_example =
    all_returned 2 64 there_and_back (omega arith) (omega arith) (omega arith) there_and_back-idle

statistics_exact_example :
    let p = (run (start 2 64) history).pool in
    let st = get_stats p in
    (st.in_use_now ≡ tally (stands in_use) p.buffers)
    × (st.in_flight_now ≡ tally (stands in_flight) p.buffers)
    × (st.available + st.in_use_now + st.in_flight_now ≡ 2)
statistics_exact_example =
    statistics_exact 2 64 history (omega arith) (omega arith) (omega arith) refl

abbrev one_out : BufferPool
one_out = (acquire (initialize new_pool 1 64).0).0

abbrev entry_out : BufferEntry
entry_out = record { block = record { id = 0; size = 64 }; state = in_use }

no_guards : new_pool.active_guards ≡ 0
unfolding new_pool
no_guards = refl

one_out-found : get_elem? one_out.buffers 0 ≡ some entry_out
unfolding acquire initialize new_pool set_state
one_out-found = refl

mark_error_overcounts_example :
    let q = release_internal (mark_error one_out 0) 0 in
    (q.stats.in_use_now ≡ one_out.stats.in_use_now)
    × (tally (stands in_use) q.buffers + 1 ≡ tally (stands in_use) one_out.buffers)
mark_error_overcounts_example =
    mark_error_overcounts one_out 0 entry_out
      (acquire-IsSound _
        (initialize-IsSound new_pool 1 64 (omega arith) (omega arith) (omega arith) no_guards))
      one_out-found refl

abbrev small_pool : BufferPool
small_pool = (initialize new_pool 2 64).0

release_once_example :
    release small_pool (release small_pool (new_guard 0)).1
    ≡ (small_pool, (release small_pool (new_guard 0)).1)
release_once_example = release_once small_pool small_pool (new_guard 0)
