-- ===== src/Ipc/Release/Sweeps.antt =====
-- ReclaimExpired and ReclaimConsumerDisconnected of CameraReleaseTracker
-- (src/ipc/camera_data_plane_v2.cpp): the two passes over the whole table.
use camera_subsystem.Prelude.{
  ℕ, ◌≡◌, refl, subst, ◌∙◌, inl, inr, Bool, true, not, ◌&&◌, none, some, List, [], ◌∷◌, arith, leb,
  if◌then◌else◌, ==_iff, Bool-cases, bytes_eq, nat_eq, ◌=?◌, find, IsUnique, among, Every,
}
use camera_subsystem.Ipc.Release.{
  FrameKey, frame_key_eq, PendingFrame, Tracker, frame_key_same_iff, member, is_complete,
  expire_from, reclaim_expired, without, disconnect_from, reclaim_disconnected,
}
use camera_subsystem.Ipc.Release.Waiting.{
  IsCounted, note-IsCounted, IsWaiting, IsTracking, complete_iff,
}

without-IsCounted :
    (c : ℕ) (f : PendingFrame) → IsCounted f → IsCounted (without c f) × ((without c f).key ≡ f.key)
without-IsCounted c f v = elim (Bool-cases (member c f.expected)) [
  | inl wanted ↦ elim (Bool-cases (member c f.released)) [
    | inl again ↦ rw (wanted, again) (v, refl)
    | inr new ↦ rw wanted (rw new ((note-IsCounted f c v wanted new).0, refl))
  ]
  | inr stranger ↦ rw stranger (v, refl)
]

-- Nobody waits any longer for a consumer that is gone.
pub without-released :
    (c : ℕ) (f : PendingFrame)
    → member c (without c f).expected ≡ true
    → member c (without c f).released ≡ true
without-released c f = ground (arith, ==_iff c c)

module _ (now : ℕ) where
  expire_from-find :
      (k : FrameKey) (m : List (FrameKey × PendingFrame))
      → find k m ≡ none
      → find k (expire_from now m).0 ≡ none
  unfolding expire_from
  expire_from-find k [] h = refl
  expire_from-find k ((j, f) ∷ m) h = ground (arith, expire_from-find k m)

  expire_from-kept :
      (k : FrameKey) (f : PendingFrame) (m : List (FrameKey × PendingFrame))
      → IsUnique m
      → find k m ≡ some f
      → find k (expire_from now m).0 ≡ (if leb f.deadline now then none else some f)
  unfolding expire_from
  expire_from-kept k f [] u h = cc
  expire_from-kept k f ((j, g) ∷ m) u h = elim (Bool-cases (j =? k)) [
    | inl hit ↦
        let here = (frame_key_same_iff j k).0 hit in
        let gone : find k (expire_from now m).0 ≡ none =
          subst (λ i. find i (expire_from now m).0 ≡ none) here (expire_from-find j m u.0) in
        ground (arith, hit, gone)
    | inr miss ↦ ground (arith, miss, expire_from-kept k f m u.1 (ground arith))
  ]

  expire_from-IsTracking :
      (m : List (FrameKey × PendingFrame))
      → Every IsWaiting m
      → IsUnique m
      → Every IsWaiting (expire_from now m).0 × IsUnique (expire_from now m).0
  unfolding expire_from
  expire_from-IsTracking [] h u = (tt, tt)
  expire_from-IsTracking ((k, f) ∷ m) h u =
      let rest = expire_from-IsTracking m h.1 u.1 in
      elim (Bool-cases (leb f.deadline now)) [
        | inl due ↦ rw due rest
        | inr later ↦ rw later ((h.0, rest.0), (expire_from-find k m u.0, rest.1))
      ]

module _ (c : ℕ) where
  disconnect_from-find :
      (k : FrameKey) (m : List (FrameKey × PendingFrame))
      → find k m ≡ none
      → find k (disconnect_from c m).0 ≡ none
  unfolding disconnect_from
  disconnect_from-find k [] h = refl
  disconnect_from-find k ((j, f) ∷ m) h = elim (Bool-cases (is_complete (without c f))) [
    | inl done ↦ rw done (ground (arith, disconnect_from-find k m))
    | inr more ↦ rw more (ground (arith, disconnect_from-find k m))
  ]

  disconnect_from-IsTracking :
      (m : List (FrameKey × PendingFrame))
      → Every IsWaiting m
      → IsUnique m
      → Every IsWaiting (disconnect_from c m).0 × IsUnique (disconnect_from c m).0
  unfolding disconnect_from
  disconnect_from-IsTracking [] h u = (tt, tt)
  disconnect_from-IsTracking ((k, f) ∷ m) h u =
      let rest = disconnect_from-IsTracking m h.1 u.1 in
      let noted = without-IsCounted c f h.0.counted in
      elim (Bool-cases (is_complete (without c f))) [
        | inl done ↦ rw done rest
        | inr more ↦ rw more (
          (
            record {
              counted = noted.0;
              waits = ground (arith, (complete_iff (without c f) noted.0).1, more);
              keyed = noted.1 ∙ h.0.keyed;
            },
            rest.0,
          ),
          (disconnect_from-find k m u.0, rest.1),
        )
      ]

pub reclaim_expired-IsTracking :
    (t : Tracker) (now : ℕ) → IsTracking t → IsTracking (reclaim_expired t now).0
unfolding reclaim_expired
reclaim_expired-IsTracking t now v =
    let both = expire_from-IsTracking now t.pending v.entries v.unique in
    record { entries = both.0; unique = both.1 }

pub reclaim_disconnected-IsTracking :
    (t : Tracker) (c : ℕ) → IsTracking t → IsTracking (reclaim_disconnected t c).0
unfolding reclaim_disconnected
reclaim_disconnected-IsTracking t c v =
    let both = disconnect_from-IsTracking c t.pending v.entries v.unique in
    record { entries = both.0; unique = both.1 }

-- Whether a frame still waits for a consumer.
abbrev pub awaits : ℕ → PendingFrame → Bool
awaits c f = member c f.expected && not (member c f.released)

disconnect_from-awaits :
    (c : ℕ) (m : List (FrameKey × PendingFrame)) → among (awaits c) (disconnect_from c m).0 ≡ 0
unfolding disconnect_from
disconnect_from-awaits c [] = refl
disconnect_from-awaits c ((k, f) ∷ m) = elim (Bool-cases (is_complete (without c f))) [
  | inl done ↦ rw done (disconnect_from-awaits c m)
  | inr more ↦ rw more (ground (arith, without-released c f, disconnect_from-awaits c m))
]

-- After ReclaimConsumerDisconnected for a consumer, no frame left in the table waits for it.
pub nobody_awaits_disconnected :
    (t : Tracker) (c : ℕ) → among (awaits c) (reclaim_disconnected t c).0.pending ≡ 0
unfolding reclaim_disconnected
nobody_awaits_disconnected t c = disconnect_from-awaits c t.pending

-- ReclaimExpired takes exactly the frames whose deadline has come: in a sound tracker, a frame
-- found under a key is found there afterwards, unchanged, unless its deadline is at or before the
-- clock reading.
pub expired_only :
    (t : Tracker) (now : ℕ) (k : FrameKey) (f : PendingFrame)
    → IsTracking t
    → find k t.pending ≡ some f
    → find k (reclaim_expired t now).0.pending ≡ (if leb f.deadline now then none else some f)
unfolding reclaim_expired
expired_only t now k f v h = expire_from-kept now k f t.pending v.unique h
