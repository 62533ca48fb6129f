-- ===== src/Core/BufferPool/Ownership/Exclusive.antt =====
-- A slot has one owner at a time: it is in the free queue, or one live guard holds it.
use camera_subsystem.Prelude.{
  ℕ, suc, ◌+◌, ◌-◌, ◌≤◌, ◌≡◌, refl, sym, inl, inr, Bool, true, ◌&&◌, Option, none, some,
  Option-cases, Bool-cases, List, [], ◌∷◌, ◌∙◌, get_elem?, set, tally, if◌then◌else◌, ltb, ◌==◌,
  get_elem?-set, get_elem?-lt, tally-set, tally-append, tally_pos, get_elem?-snoc, arith,
}
use camera_subsystem.Core.BufferPool.{BufferPool, acquire}
use camera_subsystem.Core.BufferPool.Stock.{
  IsSound, IsOut, acquire-IsSound, mark_in_flight-IsSound, cancel_in_flight-IsSound,
  mark_error-IsSound, release_internal-IsSound,
}
use camera_subsystem.Core.BufferPool.Lending.{
  lent_at, Lends, acquire-Lends, mark_in_flight-lent, cancel_in_flight-lent, mark_error-lent,
  release_internal-lent,
}
use camera_subsystem.Core.BufferPool.BufferGuard.{
  BufferGuard, new_guard, is_live, release-live, detach,
}
use camera_subsystem.Core.BufferPool.BufferGuard
use camera_subsystem.Core.BufferPool.Ownership.{
  Shared, System, Action, acquires, shares, drops, marks_in_flight, cancels, marks_error, take,
  let_go, owned, through, step, run,
}

-- The guard is live and its slot is `i`.
abbrev pub holds : ℕ → Shared → Bool
holds i g = is_live g.guard && g.guard.id == i

abbrev pub holders : ℕ → List Shared → ℕ
holders i = tally (holds i)

pub record IsOwned (s : System) : Type 0 where
  pub sound : IsSound s.pool
  pub held : (i : ℕ) → holders i s.guards ≡ lent_at s.pool i
  pub linked :
      (k : ℕ) (g : Shared) → get_elem? s.guards k ≡ some g → is_live g.guard ≡ ltb 0 g.owners

-- A pointer with an owner is a guard that is live.
owned-found :
    (s : System) (k : ℕ) (g : Shared)
    → owned s k ≡ some g
    → (get_elem? s.guards k ≡ some g) × (ltb 0 g.owners ≡ true)
owned-found s k g h = ground arith

lent-le-one : (s : System) (i : ℕ) → lent_at s.pool i ≤ 1
lent-le-one s i = ground arith

module _ (s : System) (v : IsOwned s) (k : ℕ) (g : Shared) (h : owned s k ≡ some g) where
  found : get_elem? s.guards k ≡ some g
  found = (owned-found s k g h).0

  pub live : is_live g.guard ≡ true
  live = v.linked k g found ∙ (owned-found s k g h).1

  pub out : IsOut s.pool g.guard.id
  out = omega (
    arith,
    v.held g.guard.id,
    lent-le-one s g.guard.id,
    tally_pos (holds g.guard.id) s.guards k g found (ground (arith, live)),
  )

  -- Writing over this pointer's entry.
  holders-set :
      (i : ℕ) (g' : Shared)
      → holders i (set s.guards k g') + (if holds i g then 1 else 0)
        ≡ holders i s.guards + (if holds i g' then 1 else 0)
  holders-set i g' = tally-set (holds i) s.guards k g g' found

  linked-set :
      (g' : Shared)
      → is_live g'.guard ≡ ltb 0 g'.owners
      → (j : ℕ) (x : Shared) → get_elem? (set s.guards k g') j ≡ some x
      → is_live x.guard ≡ ltb 0 x.owners
  linked-set g' e j x q =
      ground (arith, get_elem?-set s.guards k j g', v.linked j x, get_elem?-lt s.guards k g found)

  -- The pool changes, the lent slots do not.
  repool :
      (p : BufferPool)
      → IsSound p
      → ((i : ℕ) → lent_at p i ≡ lent_at s.pool i)
      → IsOwned (record s { pool = p })
  repool p sound same = record {
    sound = sound;
    held = λ i. v.held i ∙ sym (same i);
    linked = v.linked;
  }

  share-IsOwned :
      IsOwned (record s { guards = set s.guards k (record g { owners = suc g.owners }) })
  share-IsOwned = record {
    sound = v.sound;
    held = λ i. omega (arith, v.held i, holders-set i (record g { owners = suc g.owners }));
    linked = linked-set (record g { owners = suc g.owners }) (ground (arith, live));
  }

  mark_in_flight-IsOwned : IsOwned (record s { pool = BufferGuard.mark_in_flight s.pool g.guard })
  unfolding BufferGuard.mark_in_flight
  mark_in_flight-IsOwned = rw live (
      repool _ (mark_in_flight-IsSound s.pool g.guard.id v.sound)
        (mark_in_flight-lent s.pool g.guard.id))

  cancel_in_flight-IsOwned :
      IsOwned (record s { pool = BufferGuard.cancel_in_flight s.pool g.guard })
  unfolding BufferGuard.cancel_in_flight
  cancel_in_flight-IsOwned = rw live (
      repool _ (cancel_in_flight-IsSound s.pool g.guard.id v.sound)
        (cancel_in_flight-lent s.pool g.guard.id))

  mark_error-IsOwned : IsOwned (record s { pool = BufferGuard.mark_error s.pool g.guard })
  unfolding BufferGuard.mark_error
  mark_error-IsOwned = rw live (
      repool _ (mark_error-IsSound s.pool g.guard.id v.sound out)
        (λ i. mark_error-lent s.pool g.guard.id i v.sound out))

  let_go-IsOwned : IsOwned (let_go s k g)
  unfolding let_go
  let_go-IsOwned = elim (Bool-cases (g.owners == 1)) [
    | inl last ↦
        rw (last, release-live s.pool g.guard live)
          (record {
            sound = release_internal-IsSound s.pool g.guard.id v.sound out;
            held = λ i. ground (
              arith,
              live,
              v.held i,
              lent-le-one s i,
              release_internal-lent s.pool g.guard.id i v.sound out,
              holders-set i (record { guard = detach g.guard; owners = 0 }),
            );
            linked = linked-set (record { guard = detach g.guard; owners = 0 }) refl;
          })
    | inr more ↦ rw more (record {
      sound = v.sound;
      held = λ i. omega (arith, v.held i, holders-set i (record g { owners = g.owners - 1 }));
      linked =
          linked-set (record g { owners = g.owners - 1 })
            (ground (arith, live, (owned-found s k g h).1));
    })
  ]

take-IsOwned : (s : System) → IsOwned s → IsOwned (take s)
unfolding take
take-IsOwned s v = go (acquire s.pool).1 (acquire-Lends s.pool v.sound) refl
  where
    go :
        (got : Option ℕ)
        → Lends s.pool (acquire s.pool).0 got
        → (acquire s.pool).1 ≡ got
        → IsOwned (take s)
    go none l e =
        rw (e, take)
          (record {
            sound = acquire-IsSound s.pool v.sound;
            held = λ i. v.held i ∙ sym (l i);
            linked = v.linked;
          })
    go (some id) l e =
        rw (e, take)
          (record {
            sound = acquire-IsSound s.pool v.sound;
            held = λ i. ground (
              arith,
              tally-append (holds i) s.guards (record { guard = new_guard id; owners = 1 } ∷ []),
              v.held i,
              l.0,
              l.1 i,
            );
            linked = λ k g q. elim (get_elem?-snoc s.guards _ k g q) [
              | inl old ↦ v.linked k g old
              | inr new ↦ rw (← new) refl
            ];
          })

pub through-IsOwned :
    (s : System) (k : ℕ) (f : Shared → System)
    → IsOwned s
    → ((g : Shared) → owned s k ≡ some g → IsOwned (f g))
    → IsOwned (through s (owned s k) f)
through-IsOwned s k f v each = elim (Option-cases (owned s k)) [
  | inl e ↦ rw e v
  | inr (g, e) ↦ rw e (each g e)
]

-- Every action of the pool's clients keeps the invariant.
pub step-IsOwned : (s : System) (a : Action) → IsOwned s → IsOwned (step s a)
unfolding step
step-IsOwned s acquires v = take-IsOwned s v
step-IsOwned s (shares k) v = through-IsOwned s k _ v (share-IsOwned s v k)
step-IsOwned s (drops k) v = through-IsOwned s k _ v (let_go-IsOwned s v k)
step-IsOwned s (marks_in_flight k) v = through-IsOwned s k _ v (mark_in_flight-IsOwned s v k)
step-IsOwned s (cancels k) v = through-IsOwned s k _ v (cancel_in_flight-IsOwned s v k)
step-IsOwned s (marks_error k) v = through-IsOwned s k _ v (mark_error-IsOwned s v k)

pub run-IsOwned : (s : System) (acts : List Action) → IsOwned s → IsOwned (run s acts)
unfolding run
run-IsOwned s [] v = v
run-IsOwned s (a ∷ acts) v = run-IsOwned (step s a) acts (step-IsOwned s a v)
