-- ===== src/Core/BufferPool/Slots.antt =====
-- The slots of the buffer pool (src/core/buffer_pool.cpp): writes of a state and tallies by state.
use camera_subsystem.Prelude.{
  ℕ, ◌+◌, ◌≡◌, refl, Bool, Option, none, some, Option-cases, List, length, get_elem?, tally,
  if◌then◌else◌, ◌==◌, get_elem?-set, get_elem?-lt, length-set, tally-set, arith, inl, inr,
}
use camera_subsystem.Core.BufferPool.{
  BufferState, BufferEntry, BufferPool, set_state, is_lent, same_state, entry_of,
}

-- 1 for a slot that is there and free, 1 for a slot that is there and lent.
abbrev pub vacant : Option BufferEntry → ℕ
vacant none = 0
vacant (some e) = if is_lent e then 0 else 1

abbrev pub lent : Option BufferEntry → ℕ
lent none = 0
lent (some e) = if is_lent e then 1 else 0

abbrev pub stands : BufferState → BufferEntry → Bool
stands s e = same_state e.state s

module _ (bs : List BufferEntry) (i : ℕ) (s : BufferState) where
  pub length-set_state : length (set_state bs i s) ≡ length bs
  unfolding set_state
  length-set_state = elim (Option-cases (get_elem? bs i)) [
    | inl e ↦ rw (e, set_state) refl
    | inr (x, e) ↦ rw (e, set_state) (length-set bs i _)
  ]

  pub get_elem?-set_state :
      (e : BufferEntry) (j : ℕ)
      → get_elem? bs i ≡ some e
      → get_elem? (set_state bs i s) j
        ≡ (if i == j then some (record e { state = s }) else get_elem? bs j)
  unfolding set_state
  get_elem?-set_state e j h =
      rw (h, set_state)
        (ground (arith, get_elem?-set bs i j (record e { state = s }), get_elem?-lt bs i e h))

  pub tally-set_state :
      (p : BufferEntry → Bool) (e : BufferEntry)
      → get_elem? bs i ≡ some e
      → tally p (set_state bs i s) + (if p e then 1 else 0)
        ≡ tally p bs + (if p (record e { state = s }) then 1 else 0)
  unfolding set_state
  tally-set_state p e h = rw (h, set_state) (tally-set p bs i e (record e { state = s }) h)

pub entry_of-found :
    (p : BufferPool) (id : ℕ) (e : BufferEntry)
    → entry_of p id ≡ some e
    → get_elem? p.buffers id ≡ some e
entry_of-found p id e h = ground arith
