-- ===== src/Core/BufferPool/Setup.antt =====
-- The loop of BufferPool::Initialize.
use camera_subsystem.Prelude.{
  ℕ, zero, suc, ◌+◌, ◌^◌, ◌≤◌, ◌<◌, ◌≡◌, refl, ap, sym, dec_lt, ◌||◌, Bool-cases, length, get_elem?,
  tally, count, if◌then◌else◌, ltb, ◌==◌, arith, inl, inr, List, [], false,
}
use camera_subsystem.Core.BufferPool.{
  BufferPool, BufferEntry, collect_leaks, is_lent, entries_from, ids_from, initialize, ◌∷◌,
  BufferState, free, in_use, in_flight, error, same_state,
}
use camera_subsystem.Core.BufferPool.Slots.{vacant, lent, stands}
use camera_subsystem.Core.BufferPool.Stock.{IsSound}
use camera_subsystem.Core.BufferPool.Statistics.{IsExact}

entries_from-vacant :
    (k n size i : ℕ) → vacant (get_elem? (entries_from k n size) i) ≡ (if ltb i n then 1 else 0)
entries_from-vacant k zero size i = ground arith
entries_from-vacant k (suc n) size zero = ground arith
entries_from-vacant k (suc n) size (suc i) = ground (arith, entries_from-vacant (suc k) n size i)

length-entries_from : (k n size : ℕ) → length (entries_from k n size) ≡ n
length-entries_from k zero size = refl
length-entries_from k (suc n) size = ap suc (length-entries_from (suc k) n size)

length-ids_from : (k n : ℕ) → length (ids_from k n) ≡ n
length-ids_from k zero = refl
length-ids_from k (suc n) = ap suc (length-ids_from (suc k) n)

pub tally-entries_from : (k n size : ℕ) → tally is_lent (entries_from k n size) ≡ 0
tally-entries_from k zero size = refl
tally-entries_from k (suc n) size = omega (arith, tally-entries_from (suc k) n size)

count-ids_from :
    (k n i : ℕ)
    → k + n ≤ 2 ^ 32
    → i < 2 ^ 32
    → count i (ids_from k n) ≡ (if ltb i k then 0 else (if ltb i (k + n) then 1 else 0))
count-ids_from k zero i h b = ground arith
count-ids_from k (suc n) i h b = ground (arith, count-ids_from (suc k) n i (omega arith) b)

count-ids_from_big : (k n i : ℕ) → 2 ^ 32 ≤ i → count i (ids_from k n) ≡ 0
count-ids_from_big k zero i b = refl
count-ids_from_big k (suc n) i b = ground (arith, count-ids_from_big (suc k) n i b)

initialize-listed :
    (n size i : ℕ)
    → n < 2 ^ 32
    → count i (ids_from 0 n) ≡ vacant (get_elem? (entries_from 0 n size) i)
initialize-listed n size i few = elim (dec_lt i (2 ^ 32)) [
  | yes b ↦ ground (arith, count-ids_from 0 n i (omega arith) b, entries_from-vacant 0 n size i)
  | no b ↦ ground (arith, count-ids_from_big 0 n i (omega arith), entries_from-vacant 0 n size i)
]

-- `Initialize` sets up a sound pool, on any pool that has no guard left.
pub initialize-IsSound :
    (p : BufferPool) (n size : ℕ)
    → 0 < n
    → 0 < size
    → n < 2 ^ 32
    → p.active_guards ≡ 0
    → IsSound (initialize p n size).0
unfolding initialize
initialize-IsSound p n size hn hs few idle = elim (Bool-cases (n == 0 || size == 0)) [
  | inl bad ↦ absurd (ground arith)
  | inr good ↦ rw good (record {
    ready = refl;
    listed = λ i. initialize-listed n size i few;
    few = omega (arith, length-entries_from 0 n size);
    guarded = omega (arith, tally-entries_from 0 n size);
    counted = sym (length-entries_from 0 n size);
    fresh = sym (length-ids_from 0 n);
    stocked =
        omega
          (arith, length-ids_from 0 n, tally-entries_from 0 n size, length-entries_from 0 n size);
  })
]

entries_from-lent : (k n size i : ℕ) → lent (get_elem? (entries_from k n size) i) ≡ 0
entries_from-lent k zero size i = refl
entries_from-lent k (suc n) size zero = refl
entries_from-lent k (suc n) size (suc i) = entries_from-lent (suc k) n size i

-- A new pool lends no slot.
pub initialize-lent_at :
    (p : BufferPool) (n size i : ℕ)
    → 0 < n
    → 0 < size
    → lent (get_elem? (initialize p n size).0.buffers i) ≡ 0
unfolding initialize
initialize-lent_at p n size i hn hs = elim (Bool-cases (n == 0 || size == 0)) [
  | inl bad ↦ absurd (ground arith)
  | inr good ↦ rw good (entries_from-lent 0 n size i)
]

pub length-initialize :
    (p : BufferPool) (n size : ℕ) → 0 < n → 0 < size → length (initialize p n size).0.buffers ≡ n
unfolding initialize
length-initialize p n size hn hs = elim (Bool-cases (n == 0 || size == 0)) [
  | inl bad ↦ absurd (ground arith)
  | inr good ↦ rw good (length-entries_from 0 n size)
]

-- A slot is free or lent, and there is none past the end.
pub vacant-lent :
    (bs : List BufferEntry) (i : ℕ)
    → vacant (get_elem? bs i) + lent (get_elem? bs i) ≡ (if ltb i (length bs) then 1 else 0)
vacant-lent [] i = ground arith
vacant-lent (b ∷ bs) zero = ground arith
vacant-lent (b ∷ bs) (suc i) = ground (arith, vacant-lent bs i)

pub collect_leaks-nil : (bs : List BufferEntry) → tally is_lent bs ≡ 0 → collect_leaks bs ≡ []
unfolding collect_leaks
collect_leaks-nil [] h = refl
collect_leaks-nil (b ∷ bs) h = ground (arith, collect_leaks-nil bs)

tally-entries_from_ne :
    (t : BufferState) (k n size : ℕ)
    → same_state free t ≡ false
    → tally (stands t) (entries_from k n size) ≡ 0
tally-entries_from_ne t k zero size h = refl
tally-entries_from_ne t k (suc n) size h = ground (arith, tally-entries_from_ne t (suc k) n size h)

-- In a new pool no slot is in a state but free, and the counters start at 0.
pub initialize-IsExact :
    (p : BufferPool) (n size : ℕ) → 0 < n → 0 < size → IsExact (initialize p n size).0
unfolding initialize
initialize-IsExact p n size hn hs = elim (Bool-cases (n == 0 || size == 0)) [
  | inl bad ↦ absurd (ground arith)
  | inr good ↦ rw good (record {
    held = sym (tally-entries_from_ne in_use 0 n size refl);
    flying = sym (tally-entries_from_ne in_flight 0 n size refl);
    clean = tally-entries_from_ne error 0 n size refl;
  })
]
