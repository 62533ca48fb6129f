-- ===== src/Core/BufferPool/Ownership.antt =====
-- The pool with the guards that it has handed out (src/core/buffer_pool.cpp, buffer_guard.cpp,
-- frame_lease.cpp): std::shared_ptr<BufferGuard> as a guard with a count of owners.
pub mod Exclusive
pub mod Histories
pub mod Counters
use camera_subsystem.Prelude.{
  ℕ, zero, suc, ◌+◌, ◌-◌, ◌<◌, ◌≡◌, refl, Bool, true, false, ◌&&◌, Option, none, some, List, [],
  ◌∷◌, ◌++◌, get_elem?, set, if◌then◌else◌, ltb, ◌==◌,
}
use camera_subsystem.Core.BufferPool.{BufferPool, acquire}
use camera_subsystem.Core.BufferPool.BufferGuard.{BufferGuard, new_guard, is_live, release}
use camera_subsystem.Core.BufferPool.BufferGuard

-- The control block of a shared pointer: the guard, and how many pointers own it.
pub record Shared : Type 0 where
  pub guard : BufferGuard
  pub owners : ℕ

pub record System : Type 0 where
  pub pool : BufferPool
  pub guards : List Shared

pub data Action : Type 0 where
  acquires : Action
  shares drops marks_in_flight cancels marks_error : ℕ → Action

-- `Acquire`, with the new guard kept by one owner.
unfoldable pub take : System → System
take s =
    let (p, got) = acquire s.pool in
    elim got [
      | none ↦ record s { pool = p }
      | some id ↦ record {
        pool = p;
        guards = s.guards ++ record { guard = new_guard id; owners = 1 } ∷ [];
      }
    ]

-- One owner lets go; the last one runs the destructor.
unfoldable pub let_go : System → ℕ → Shared → System
let_go s k g =
    if g.owners == 1
    then (let (p, g') = release s.pool g.guard in
        record { pool = p; guards = set s.guards k (record { guard = g'; owners = 0 }) })
    else record s { guards = set s.guards k (record g { owners = g.owners - 1 }) }

-- An action through pointer `k`, which has to have an owner.
abbrev pub owned : System → ℕ → Option Shared
owned s k = elim (get_elem? s.guards k) [
  | none ↦ none
  | some g ↦ if ltb 0 g.owners then some g else none
]

abbrev pub through : System → Option Shared → (Shared → System) → System
through s none f = s
through s (some g) f = f g

unfoldable pub step : System → Action → System
unfolding take let_go
step s acquires = take s
step s (shares k) =
    through s (owned s k)
      λ g. record s { guards = set s.guards k (record g { owners = suc g.owners }) }
step s (drops k) = through s (owned s k) (let_go s k)
step s (marks_in_flight k) =
    through s (owned s k) λ g. record s { pool = BufferGuard.mark_in_flight s.pool g.guard }
step s (cancels k) =
    through s (owned s k) λ g. record s { pool = BufferGuard.cancel_in_flight s.pool g.guard }
step s (marks_error k) =
    through s (owned s k) λ g. record s { pool = BufferGuard.mark_error s.pool g.guard }

unfoldable pub run : System → List Action → System
run s [] = s
run s (a ∷ as') = run (step s a) as'
