-- ===== src/Core/BufferPool/Ownership/Counters.antt =====
-- The statistics of the pool after histories without `MarkError`.
use camera_subsystem.Prelude.{
  ℕ, ◌+◌, ◌^◌, ◌<◌, ◌≡◌, inl, inr, Bool, true, false, some, List, [], ◌∷◌, arith, ◌==◌, Bool-cases,
  Option-cases, tally,
}
use camera_subsystem.Core.BufferPool.{in_use, in_flight, get_stats, new_pool, acquire}
use camera_subsystem.Core.BufferPool.Slots.{stands}
use camera_subsystem.Core.BufferPool.Setup.{initialize-IsExact}
use camera_subsystem.Core.BufferPool.Statistics.{
  IsExact, tally-states, acquire-IsExact, mark_in_flight-IsExact, cancel_in_flight-IsExact,
  release_internal-IsExact,
}
use camera_subsystem.Core.BufferPool.BufferGuard.{is_live, release, release-live}
use camera_subsystem.Core.BufferPool.BufferGuard
use camera_subsystem.Core.BufferPool.Ownership.{
  Shared, System, Action, acquires, shares, drops, marks_in_flight, cancels, marks_error, take,
  let_go, owned, through, step, run,
}
use camera_subsystem.Core.BufferPool.Ownership.Exclusive.{IsOwned, live, out, step-IsOwned}
use camera_subsystem.Core.BufferPool.Ownership.Histories.{start, start-IsOwned, reached, slots}

abbrev pub is_error_mark : Action → Bool
is_error_mark (marks_error k) = true
is_error_mark _ = false

through-IsExact :
    (s : System) (k : ℕ) (f : Shared → System)
    → IsExact s.pool
    → ((g : Shared) → owned s k ≡ some g → IsExact (f g).pool)
    → IsExact (through s (owned s k) f).pool
through-IsExact s k f v each = elim (Option-cases (owned s k)) [
  | inl e ↦ rw e v
  | inr (g, e) ↦ rw e (each g e)
]

take-IsExact : (s : System) → IsOwned s → IsExact s.pool → IsExact (take s).pool
unfolding take
take-IsExact s v x = elim (Option-cases (acquire s.pool).1) [
  | inl e ↦ rw (e, take) (acquire-IsExact s.pool v.sound x)
  | inr (id, e) ↦ rw (e, take) (acquire-IsExact s.pool v.sound x)
]

let_go-IsExact :
    (s : System) (k : ℕ) (g : Shared)
    → IsOwned s
    → owned s k ≡ some g
    → IsExact s.pool
    → IsExact (let_go s k g).pool
unfolding let_go
let_go-IsExact s k g v h x = elim (Bool-cases (g.owners == 1)) [
  | inl last ↦
      rw (last, release-live s.pool g.guard (live s v k g h))
        (release_internal-IsExact s.pool g.guard.id v.sound (out s v k g h) x)
  | inr more ↦ rw more x
]

step-IsExact :
    (s : System) (a : Action)
    → IsOwned s
    → is_error_mark a ≡ false
    → IsExact s.pool
    → IsExact (step s a).pool
unfolding step BufferGuard.mark_in_flight BufferGuard.cancel_in_flight
step-IsExact s acquires v n x = take-IsExact s v x
step-IsExact s (shares k) v n x = through-IsExact s k _ x (λ g h. x)
step-IsExact s (drops k) v n x = through-IsExact s k _ x (λ g h. let_go-IsExact s k g v h x)
step-IsExact s (marks_in_flight k) v n x =
    through-IsExact s k _ x
      (λ g h. rw (live s v k g h) (mark_in_flight-IsExact s.pool g.guard.id x))
step-IsExact s (cancels k) v n x =
    through-IsExact s k _ x
      (λ g h. rw (live s v k g h) (cancel_in_flight-IsExact s.pool g.guard.id x))
step-IsExact s (marks_error k) v n x = cc

run-IsExact :
    (s : System) (acts : List Action)
    → IsOwned s
    → tally is_error_mark acts ≡ 0
    → IsExact s.pool
    → IsExact (run s acts).pool
unfolding run
run-IsExact s [] v n x = x
run-IsExact s (a ∷ acts) v n x =
    run-IsExact (step s a) acts (step-IsOwned s a v) (ground arith)
      (step-IsExact s a v (ground arith) x)

start-IsExact : (n size : ℕ) → 0 < n → 0 < size → IsExact (start n size).pool
unfolding start
start-IsExact n size hn hs = initialize-IsExact new_pool n size hn hs

-- After any history without `MarkError` on a new pool of n buffers, `GetStats` reports how many
-- buffers are in use and in flight, and these with the available ones add up to n.
pub statistics_exact :
    (n size : ℕ) (acts : List Action)
    → 0 < n
    → 0 < size
    → n < 2 ^ 32
    → tally is_error_mark acts ≡ 0
    → let p = (run (start n size) acts).pool in
      let st = get_stats p in
      (st.in_use_now ≡ tally (stands in_use) p.buffers)
      × (st.in_flight_now ≡ tally (stands in_flight) p.buffers)
      × (st.available + st.in_use_now + st.in_flight_now ≡ n)
unfolding get_stats
statistics_exact n size acts hn hs few clean =
    let s = run (start n size) acts in
    let v = reached n size acts hn hs few in
    let x : IsExact s.pool =
      run-IsExact (start n size) acts (start-IsOwned n size hn hs few) clean
        (start-IsExact n size hn hs) in
    (
      x.held,
      x.flying,
      omega (
        arith,
        x.held,
        x.flying,
        x.clean,
        tally-states s.pool.buffers,
        v.sound.stocked,
        slots n size acts hn hs few,
      ),
    )
