-- ===== src/Ipc/Transfer.antt =====
-- ReadFull and WriteFull of src/ipc/camera_data_plane_v2.cpp and src/ipc/camera_control_server.cpp.
-- What the kernel answers to the calls is a list, one answer for each call; when the list runs out,
-- the last call has not returned.
use camera_subsystem.Prelude.{
  ℕ, ◌+◌, ◌≤◌, ◌<◌, ◌≡◌, refl, sym, inl, inr, Bool, true, false, List, [], ◌∷◌, arith, leb, ◌==◌,
  if◌then◌else◌, Bool-cases, length, bytes_eq, nat_eq,
}

pub data Answer : Type 0 where
  interrupted failed : Answer
  moved : ℕ → Answer

pub data Progress : Type 0 where
  blocked : ℕ → Progress
  done : Bool → ℕ → Progress

-- The loop with `total` of `length` bytes moved so far. The result keeps the bytes moved.
unfoldable pub move_full : ℕ → ℕ → List Answer → Progress
move_full length total [] = if leb length total then done true total else blocked total
move_full length total (interrupted ∷ rest) =
    let next = move_full length total rest in if leb length total then done true total else next
move_full length total (failed ∷ rest) =
    if leb length total then done true total else done false total
move_full length total (moved n ∷ rest) =
    let next = move_full length (total + n) rest in
    if leb length total then done true total else (if n == 0 then done false total else next)

-- `read` and `write` never move more than they are asked to.
abbrev pub Fits : ℕ → ℕ → List Answer → Type 0
Fits length total [] = Unit
Fits length total (interrupted ∷ rest) = Fits length total rest
Fits length total (failed ∷ rest) = Unit
Fits length total (moved n ∷ rest) = (total + n ≤ length) × Fits length (total + n) rest

abbrev pub Tallied : ℕ → Progress → Type 0
Tallied length (done true t) = t ≡ length
Tallied length (done false t) = t < length
Tallied length (blocked t) = t < length

move_full-Tallied :
    (length total : ℕ) (answers : List Answer)
    → total ≤ length
    → Fits length total answers
    → Tallied length (move_full length total answers)
unfolding move_full
move_full-Tallied length total [] le fits = elim (Bool-cases (leb length total)) [
  | inl full ↦ rw full (ground arith)
  | inr more ↦ rw more (ground arith)
]
move_full-Tallied length total (interrupted ∷ rest) le fits = elim (Bool-cases (leb length total)) [
  | inl full ↦ rw full (ground arith)
  | inr more ↦ rw more (move_full-Tallied length total rest le fits)
]
move_full-Tallied length total (failed ∷ rest) le fits = elim (Bool-cases (leb length total)) [
  | inl full ↦ rw full (ground arith)
  | inr more ↦ rw more (ground arith)
]
move_full-Tallied length total (moved n ∷ rest) le fits = elim (Bool-cases (leb length total)) [
  | inl full ↦ rw full (ground arith)
  | inr more ↦ elim (Bool-cases (n == 0)) [
    | inl closed ↦ rw (more, closed) (ground arith)
    | inr some_bytes ↦
        rw (more, some_bytes) (move_full-Tallied length (total + n) rest fits.0 fits.1)
  ]
]

-- When no call moves more than it is asked to, the loops report success only with the whole message
-- moved, and failure, or a wait, only with a part of it.
pub transfer_accounted :
    (length : ℕ) (answers : List Answer)
    → Fits length 0 answers
    → Tallied length (move_full length 0 answers)
transfer_accounted length answers fits = move_full-Tallied length 0 answers (omega arith) fits

full_stops :
    (length total : ℕ) (answers : List Answer)
    → leb length total ≡ true
    → move_full length total answers ≡ done true total
unfolding move_full
full_stops length total [] full = rw full refl
full_stops length total (interrupted ∷ rest) full = rw full refl
full_stops length total (failed ∷ rest) full = rw full refl
full_stops length total (moved k ∷ rest) full = rw full refl

-- The answers without the interruptions by a signal.
abbrev pub uninterrupted : List Answer → List Answer
uninterrupted [] = []
uninterrupted (interrupted ∷ rest) = uninterrupted rest
uninterrupted (failed ∷ rest) = failed ∷ uninterrupted rest
uninterrupted (moved n ∷ rest) = moved n ∷ uninterrupted rest

-- Wherever signals interrupt the calls of ReadFull and WriteFull, the loops end in the same way and
-- with as many bytes moved as without the interruptions.
pub interruptions_ignored :
    (length total : ℕ) (answers : List Answer)
    → move_full length total answers ≡ move_full length total (uninterrupted answers)
unfolding move_full
interruptions_ignored length total [] = refl
interruptions_ignored length total (interrupted ∷ rest) = elim (Bool-cases (leb length total)) [
  | inl full ↦ rw full (sym (full_stops length total (uninterrupted rest) full))
  | inr more ↦ rw more (interruptions_ignored length total rest)
]
interruptions_ignored length total (failed ∷ rest) = refl
interruptions_ignored length total (moved n ∷ rest) = elim (Bool-cases (leb length total)) [
  | inl full ↦ rw full refl
  | inr more ↦ elim (Bool-cases (n == 0)) [
    | inl closed ↦ rw (more, closed) refl
    | inr some_bytes ↦ rw (more, some_bytes) (interruptions_ignored length (total + n) rest)
  ]
]
