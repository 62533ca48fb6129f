-- ===== src/Core/BufferPool/Ownership/Histories.antt =====
-- What holds of the pool and its guards after any history of actions.
use camera_subsystem.Prelude.{
  ℕ, ◌+◌, ◌^◌, ◌<◌, ◌≡◌, ◌≢◌, refl, sym, ◌∙◌, inl, inr, true, some, Option-cases, List, [], ◌∷◌,
  get_elem?, tally, count, length, if◌then◌else◌, ltb, tally_two, tally-eq-zero, arith,
}
use camera_subsystem.Core.BufferPool.{
  new_pool, initialize, acquire, is_lent, collect_leaks, get_stats,
}
use camera_subsystem.Core.BufferPool.Setup.{
  initialize-IsSound, initialize-lent_at, length-initialize, collect_leaks-nil, vacant-lent,
}
use camera_subsystem.Core.BufferPool.Lending.{
  length-acquire, length-release_internal, length-mark_in_flight, length-cancel_in_flight,
  length-mark_error,
}
use camera_subsystem.Core.BufferPool.BufferGuard.{BufferGuard, is_live, release}
use camera_subsystem.Core.BufferPool.BufferGuard
use camera_subsystem.Core.BufferPool.Ownership.{
  Shared, System, Action, acquires, shares, drops, marks_in_flight, cancels, marks_error, take,
  let_go, owned, through, step, run,
}
use camera_subsystem.Core.BufferPool.Ownership.Exclusive.{IsOwned, holds, holders, run-IsOwned}

-- A new pool of `n` buffers, with no guard.
unfoldable pub start : ℕ → ℕ → System
start n size = record { pool = (initialize new_pool n size).0; guards = [] }

pub start-IsOwned : (n size : ℕ) → 0 < n → 0 < size → n < 2 ^ 32 → IsOwned (start n size)
unfolding start new_pool
start-IsOwned n size hn hs few = record {
  sound = initialize-IsSound new_pool n size hn hs few refl;
  held = λ i. sym (initialize-lent_at new_pool n size i hn hs);
  linked = λ k g q. cc;
}

length-start : (n size : ℕ) → 0 < n → 0 < size → length (start n size).pool.buffers ≡ n
unfolding start
length-start n size hn hs = length-initialize new_pool n size hn hs

length-through :
    (s : System) (k : ℕ) (f : Shared → System)
    → ((g : Shared) → length (f g).pool.buffers ≡ length s.pool.buffers)
    → length (through s (owned s k) f).pool.buffers ≡ length s.pool.buffers
length-through s k f each = elim (Option-cases (owned s k)) [
  | inl e ↦ rw e refl
  | inr (g, e) ↦ rw e (each g)
]

length-take : (s : System) → length (take s).pool.buffers ≡ length s.pool.buffers
unfolding take
length-take s = elim (Option-cases (acquire s.pool).1) [
  | inl e ↦ rw (e, take) (length-acquire s.pool)
  | inr (id, e) ↦ rw (e, take) (length-acquire s.pool)
]

length-step : (s : System) (a : Action) → length (step s a).pool.buffers ≡ length s.pool.buffers
unfolding step let_go release BufferGuard.mark_in_flight BufferGuard.cancel_in_flight
    BufferGuard.mark_error
length-step s acquires = length-take s
length-step s (shares k) = length-through s k _ λ g. refl
length-step s (drops k) =
    length-through s k _ λ g. ground (arith, length-release_internal s.pool g.guard.id)
length-step s (marks_in_flight k) =
    length-through s k _ λ g. ground (arith, length-mark_in_flight s.pool g.guard.id)
length-step s (cancels k) =
    length-through s k _ λ g. ground (arith, length-cancel_in_flight s.pool g.guard.id)
length-step s (marks_error k) =
    length-through s k _ λ g. ground (arith, length-mark_error s.pool g.guard.id)

length-run :
    (s : System) (acts : List Action) → length (run s acts).pool.buffers ≡ length s.pool.buffers
unfolding run
length-run s [] = refl
length-run s (a ∷ acts) = length-run (step s a) acts ∙ length-step s a

module _ (n size : ℕ) (acts : List Action) (some_buffers : 0 < n) (some_bytes : 0 < size)
    (few : n < 2 ^ 32) where
  pub reached : IsOwned (run (start n size) acts)
  reached = run-IsOwned (start n size) acts (start-IsOwned n size some_buffers some_bytes few)

  pub slots : length (run (start n size) acts).pool.buffers ≡ n
  slots = length-run (start n size) acts ∙ length-start n size some_buffers some_bytes

  -- After any history on a new pool of n buffers, each id below n stands in the free queue once or
  -- is held by one live guard, never both, and no other id is queued or held.
  pub one_place :
      (i : ℕ)
      → let s = run (start n size) acts in
        count i s.pool.free_ids + holders i s.guards ≡ (if ltb i n then 1 else 0)
  one_place i =
      let s = run (start n size) acts in
      rw (reached.sound.listed i, reached.held i)
        (ground (arith, slots, vacant-lent s.pool.buffers i))

  -- After any history on a new pool, two different live guards hold different buffers.
  pub guards_exclusive :
      (j k : ℕ) (x y : Shared)
      → j < k
      → get_elem? (run (start n size) acts).guards j ≡ some x
      → get_elem? (run (start n size) acts).guards k ≡ some y
      → is_live x.guard ≡ true
      → is_live y.guard ≡ true
      → x.guard.id ≢ y.guard.id
  guards_exclusive j k x y lt hx hy lx ly same =
      let s = run (start n size) acts in
      absurd (
        ground (
          arith,
          reached.held x.guard.id,
          tally_two (holds x.guard.id) s.guards j k x y lt hx hy (ground arith) (ground arith),
        ))

  -- After any history on a new pool of n buffers that leaves no pointer with an owner, no buffer is
  -- reported as leaked, n buffers are available and no guard is counted as active.
  pub all_returned :
      ((k : ℕ) (g : Shared) → get_elem? (run (start n size) acts).guards k ≡ some g → g.owners ≡ 0)
      → let s = run (start n size) acts in
        (collect_leaks s.pool.buffers ≡ [])
        × ((get_stats s.pool).available ≡ n)
        × (s.pool.active_guards ≡ 0)
  unfolding get_stats
  all_returned idle =
      let s = run (start n size) acts in
      let none_lent : tally is_lent s.pool.buffers ≡ 0 =
        tally-eq-zero is_lent s.pool.buffers λ k e q. ground (
          arith,
          reached.held k,
          tally-eq-zero (holds k) s.guards
              (λ j g r. ground (arith, idle j g r, reached.linked j g r)),
        ) in
      (
        collect_leaks-nil s.pool.buffers none_lent,
        ground (arith, slots, reached.sound.stocked),
        ground (arith, reached.sound.guarded),
      )
