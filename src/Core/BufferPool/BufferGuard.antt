-- ===== src/Core/BufferPool/BufferGuard.antt =====
-- src/core/buffer_guard.cpp: the owner of one slot of the pool. `attached` is `pool_ != nullptr`,
-- `block` the index of the slot that `block_` points to.
use camera_subsystem.Prelude.{
  ℕ, ◌≡◌, Bool, true, false, not, ◌&&◌, Option, none, some, get_elem?, if◌then◌else◌, arith,
}
use camera_subsystem.Core.BufferPool.{BufferPool, release_internal}
use camera_subsystem.Core.BufferPool

pub record BufferGuard : Type 0 where
  pub attached : Bool
  pub block : Option ℕ
  pub id : ℕ
  pub released : Bool

-- The default constructor.
unfoldable pub empty_guard : BufferGuard
empty_guard = record { attached = false; block = none; id = 0; released = true }

-- The constructor that `Acquire` calls.
abbrev pub new_guard : ℕ → BufferGuard
new_guard id = record { attached = true; block = some id; id = id; released = false }

abbrev pub is_some : Option ℕ → Bool
is_some none = false
is_some (some i) = true

unfoldable pub is_valid : BufferGuard → Bool
is_valid g = g.attached && is_some g.block && not g.released

-- `Size`; a block pointer into a slot that is gone, undefined in the source, reads 0.
unfoldable pub guard_size : BufferPool → BufferGuard → ℕ
guard_size p g = elim g.block [
  | none ↦ 0
  | some i ↦ elim (get_elem? p.buffers i) [ none ↦ 0 | some e ↦ e.block.size ]
]

-- The guard still owns its slot.
abbrev pub is_live : BufferGuard → Bool
is_live g = g.attached && not g.released

unfoldable pub mark_in_flight : BufferPool → BufferGuard → BufferPool
mark_in_flight p g = if is_live g then BufferPool.mark_in_flight p g.id else p

unfoldable pub cancel_in_flight : BufferPool → BufferGuard → BufferPool
cancel_in_flight p g = if is_live g then BufferPool.cancel_in_flight p g.id else p

unfoldable pub mark_error : BufferPool → BufferGuard → BufferPool
mark_error p g = if is_live g then BufferPool.mark_error p g.id else p

abbrev pub detach : BufferGuard → BufferGuard
detach g = record g { attached = false; block = none; released = true }

-- `Release`, which the destructor calls.
unfoldable pub release : BufferPool → BufferGuard → BufferPool × BufferGuard
release p g = (if not g.released && g.attached then release_internal p g.id else p, detach g)

-- The move constructor: the new guard and what is left of the old one.
unfoldable pub move_guard : BufferGuard → BufferGuard × BufferGuard
move_guard other = (other, detach other)

-- Move assignment between two different guards.
unfoldable pub assign_guard :
    BufferPool → BufferGuard → BufferGuard → BufferPool × BufferGuard × BufferGuard
unfolding release
assign_guard p self other = ((release p self).0, other, detach other)

pub release-live :
    (p : BufferPool) (g : BufferGuard)
    → is_live g ≡ true
    → release p g ≡ (release_internal p g.id, detach g)
unfolding release
release-live p g h = ground arith

-- Releasing a guard again does nothing to the pool or to the guard.
pub release_once :
    (p q : BufferPool) (g : BufferGuard) → release q (release p g).1 ≡ (q, (release p g).1)
unfolding release
release_once p q g = ground arith

-- A move hands the slot over: the source of the move is no longer live, and the pool's view of the
-- target is that of the source; an assignment gives the target's old slot back first.
pub move_hands_over :
    (p : BufferPool) (self other : BufferGuard)
    → (is_live (move_guard other).1 ≡ false)
      × ((move_guard other).0 ≡ other)
      × ((assign_guard p self other).0 ≡ (release p self).0)
      × ((assign_guard p self other).1 ≡ other)
      × (is_valid (assign_guard p self other).2 ≡ false)
unfolding move_guard assign_guard release is_valid
move_hands_over p self other = ground arith
