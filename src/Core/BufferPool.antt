-- ===== src/Core/BufferPool.antt =====
-- src/core/buffer_pool.cpp with include/camera_subsystem/core/{buffer_pool,buffer_state}.h.
-- A method that locks `mutex_` is one step: it takes the pool and returns the new one. The bytes
-- and the address of a buffer are left out; `size_t` statistics count objects in memory and are
-- plain numbers, `uint64_t` counters and the `uint32_t` guard counter wrap.
pub mod Slots
pub mod Stock
pub mod Setup
pub mod Lending
pub mod Statistics
pub mod BufferGuard
pub mod Ownership
use camera_subsystem.Prelude.{
  ℕ, zero, suc, ◌+◌, ◌-◌, max, Bool, true, false, not, ◌||◌, Option, none, some, List, [], ◌∷◌,
  ◌++◌, length, get_elem?, set, if◌then◌else◌, ltb, leb, ◌==◌,
}
use camera_subsystem.Core.Words.{u32, u64}

pub data BufferState : Type 0 where
  free in_use in_flight error : BufferState

-- `==` on the enumeration.
abbrev pub same_state : BufferState → BufferState → Bool
same_state free free = true
same_state in_use in_use = true
same_state in_flight in_flight = true
same_state error error = true
same_state _ _ = false

pub record BufferBlock : Type 0 where
  pub id : ℕ
  pub size : ℕ

pub record BufferEntry : Type 0 where
  pub block : BufferBlock
  pub state : BufferState

pub record Stats : Type 0 where
  pub total : ℕ
  pub available : ℕ
  pub in_use_now : ℕ
  pub in_flight_now : ℕ
  pub max_in_use : ℕ
  pub max_in_flight : ℕ
  pub acquire_count : ℕ
  pub release_count : ℕ
  pub acquire_fail : ℕ

abbrev pub no_stats : Stats
no_stats = record {
  total = 0;
  available = 0;
  in_use_now = 0;
  in_flight_now = 0;
  max_in_use = 0;
  max_in_flight = 0;
  acquire_count = 0;
  release_count = 0;
  acquire_fail = 0;
}

pub record BufferPool : Type 0 where
  pub buffers : List BufferEntry
  pub free_ids : List ℕ
  pub buffer_size : ℕ
  pub initialized : Bool
  pub stats : Stats
  pub active_guards : ℕ

-- The constructor.
unfoldable pub new_pool : BufferPool
new_pool = record {
  buffers = [];
  free_ids = [];
  buffer_size = 0;
  initialized = false;
  stats = no_stats;
  active_guards = 0;
}

-- `Clear` leaves `active_guard_count_` alone.
unfoldable pub clear : BufferPool → BufferPool
clear p = record p {
  buffers = [];
  free_ids = [];
  buffer_size = 0;
  initialized = false;
  stats = no_stats;
}

-- The loop of `Initialize`, from index `i` with `n` rounds left.
abbrev pub entries_from : ℕ → ℕ → ℕ → List BufferEntry
entries_from i zero size = []
entries_from i (suc n) size =
    record { block = record { id = u32 i; size = size }; state = free }
    ∷ entries_from (suc i) n size

abbrev pub ids_from : ℕ → ℕ → List ℕ
ids_from i zero = []
ids_from i (suc n) = u32 i ∷ ids_from (suc i) n

unfoldable pub initialize : BufferPool → ℕ → ℕ → BufferPool × Bool
unfolding clear
initialize p buffer_count buffer_size =
    if buffer_count == 0 || buffer_size == 0 then (p, false) else (
      record (clear p) {
        buffers = entries_from 0 buffer_count buffer_size;
        free_ids = ids_from 0 buffer_count;
        buffer_size = buffer_size;
        initialized = true;
        stats = record no_stats { total = buffer_count; available = buffer_count };
      },
      true,
    )

-- `buffers_[id].state = s`; an index past the end, undefined in the source, changes nothing.
unfoldable pub set_state : List BufferEntry → ℕ → BufferState → List BufferEntry
set_state bs id s = elim (get_elem? bs id) [
  | none ↦ bs
  | some e ↦ set bs id (record e { state = s })
]

-- What `Acquire` hands out: the arguments of the `BufferGuard` constructor, the id and the block
-- pointer's index. The queue's front is the list's head.
acquire_from : List ℕ → BufferPool → BufferPool × Option ℕ
unfolding set_state
acquire_from [] p =
    (record p { stats = record (p.stats) { acquire_fail = u64 (p.stats.acquire_fail + 1) } }, none)
acquire_from (id ∷ rest) p =
    let in_use' = p.stats.in_use_now + 1 in
    (
      record p {
        free_ids = rest;
        buffers = set_state p.buffers id in_use;
        stats = record (p.stats) {
          available = length rest;
          in_use_now = in_use';
          max_in_use = max p.stats.max_in_use in_use';
        };
        active_guards = u32 (p.active_guards + 1);
      },
      some id,
    )

unfoldable pub acquire : BufferPool → BufferPool × Option ℕ
unfolding acquire_from
acquire p =
    let q = record p {
      stats = record (p.stats) { acquire_count = u64 (p.stats.acquire_count + 1) };
    } in
    acquire_from (if p.initialized then p.free_ids else []) q

-- `GetStats` reads the free list again.
unfoldable pub get_stats : BufferPool → Stats
get_stats p = record (p.stats) { available = length p.free_ids }

abbrev pub is_lent : BufferEntry → Bool
is_lent e = not (same_state e.state free)

unfoldable pub collect_leaks : List BufferEntry → List ℕ
collect_leaks [] = []
collect_leaks (e ∷ es) = if is_lent e then e.block.id ∷ collect_leaks es else collect_leaks es

-- The entry that an operation on `buffer_id` goes on with, after its guard.
abbrev pub entry_of : BufferPool → ℕ → Option BufferEntry
entry_of p id =
    if not p.initialized || leb (length p.buffers) id then none else get_elem? p.buffers id

-- `if (n > 0) n--;`
abbrev pub decrement : ℕ → ℕ
decrement n = if ltb 0 n then n - 1 else n

unfoldable pub leave_state : BufferState → Stats → Stats
leave_state in_flight s = record s { in_flight_now = decrement s.in_flight_now }
leave_state in_use s = record s { in_use_now = decrement s.in_use_now }
leave_state _ s = s

unfoldable pub release_internal : BufferPool → ℕ → BufferPool
unfolding leave_state set_state
release_internal p id = elim (entry_of p id) [
  | none ↦ p
  | some e ↦
      let left = leave_state e.state p.stats in
      record p {
        buffers = set_state p.buffers id free;
        free_ids = p.free_ids ++ id ∷ [];
        stats = record left {
          release_count = u64 (left.release_count + 1);
          available = length (p.free_ids ++ id ∷ []);
        };
        active_guards = decrement p.active_guards;
      }
]

unfoldable pub mark_in_flight : BufferPool → ℕ → BufferPool
unfolding set_state
mark_in_flight p id = elim (entry_of p id) [
  | none ↦ p
  | some e ↦
      let flying = p.stats.in_flight_now + 1 in
      if same_state e.state in_use
      then record p {
        buffers = set_state p.buffers id in_flight;
        stats = record (p.stats) {
          in_use_now = decrement p.stats.in_use_now;
          in_flight_now = flying;
          max_in_flight = max p.stats.max_in_flight flying;
        };
      }
      else p
]

unfoldable pub cancel_in_flight : BufferPool → ℕ → BufferPool
unfolding set_state
cancel_in_flight p id = elim (entry_of p id) [
  | none ↦ p
  | some e ↦
      if same_state e.state in_flight
      then record p {
        buffers = set_state p.buffers id in_use;
        stats = record (p.stats) {
          in_flight_now = decrement p.stats.in_flight_now;
          in_use_now = p.stats.in_use_now + 1;
        };
      }
      else p
]

unfoldable pub mark_error : BufferPool → ℕ → BufferPool
unfolding set_state
mark_error p id = elim (entry_of p id) [
  | none ↦ p
  | some e ↦ record p { buffers = set_state p.buffers id error }
]

unfoldable pub transition_state : BufferPool → ℕ → BufferState → BufferState → BufferPool × Bool
unfolding set_state
transition_state p id from to = elim (entry_of p id) [
  | none ↦ (p, false)
  | some e ↦
      if same_state e.state from
      then (record p { buffers = set_state p.buffers id to }, true)
      else (p, false)
]
