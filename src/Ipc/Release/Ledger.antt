-- ===== src/Ipc/Release/Ledger.antt =====
-- Histories of CameraReleaseTracker (src/ipc/camera_data_plane_v2.cpp): every frame that enters the
-- table leaves it in one reclaim.
use camera_subsystem.Prelude.{
  ℕ, ◌+◌, ◌≡◌, refl, inl, inr, Bool, Option, none, some, List, [], ◌∷◌, ◌++◌, arith, leb,
  if◌then◌else◌, Bool-cases, Option-cases, tally, tally-append, is_empty, bytes_eq, nat_eq, find,
  IsUnique, among, among-store, among-erase,
}
use camera_subsystem.Ipc.Release.{
  ReleaseFrame, is_release_valid, FrameKey, frame_key_same, frame_key_eq, PendingFrame, Reclaim,
  Tracker, new_tracker, member, insert_all, register_frame, make_reclaim, is_complete, settle,
  mark_pending, key_in, mark_released, expire_from, reclaim_expired, without, disconnect_from,
  reclaim_disconnected,
}
use camera_subsystem.Ipc.Release.Waiting.{
  IsTracking, new_tracker-IsTracking, register_frame-IsTracking, mark_released-IsTracking,
}
use camera_subsystem.Ipc.Release.Sweeps.{
  reclaim_expired-IsTracking, reclaim_disconnected-IsTracking,
}

pub data Event : Type 0 where
  registers : ℕ → FrameKey → List ℕ → Event
  releases : ReleaseFrame → Event
  expires : ℕ → Event
  disconnects : ℕ → Event

-- The tracker with the registrations it accepted and the reclaims it returned.
pub record Ledger : Type 0 where
  pub tracker : Tracker
  pub accepted : List FrameKey
  pub reclaims : List Reclaim

abbrev pub new_ledger : ℕ → Ledger
new_ledger release_timeout = record {
  tracker = new_tracker release_timeout;
  accepted = [];
  reclaims = [];
}

abbrev pub enter : Ledger → FrameKey → Tracker × Bool → Ledger
enter l key (t, okay) = record l {
  tracker = t;
  accepted = if okay then key ∷ l.accepted else l.accepted;
}

abbrev pub hand_back : Ledger → Tracker × List Reclaim → Ledger
hand_back l (t, gone) = record l { tracker = t; reclaims = gone ++ l.reclaims }

abbrev pub step : Ledger → Event → Ledger
step l (registers now key consumers) = enter l key (register_frame l.tracker now key consumers)
step l (releases message) = hand_back l (mark_released l.tracker message)
step l (expires now) = hand_back l (reclaim_expired l.tracker now)
step l (disconnects consumer) = hand_back l (reclaim_disconnected l.tracker consumer)

abbrev pub run : Ledger → List Event → Ledger
run l [] = l
run l (e ∷ es) = run (step l e) es

module _ (k : FrameKey) where
  -- Frames of the key in the table, and reclaims of it.
  abbrev pub held : Tracker → ℕ
  held t = among (λ f. frame_key_same f.key k) t.pending

  abbrev pub reclaimed : List Reclaim → ℕ
  reclaimed = tally (λ r. frame_key_same r.key k)

  abbrev pub entered : List FrameKey → ℕ
  entered = tally (λ j. frame_key_same j k)

  register_frame-held :
      (t : Tracker) (now : ℕ) (key : FrameKey) (consumers : List ℕ)
      → let (t', okay) = register_frame t now key consumers in
        held t' ≡ held t + (if okay then (if frame_key_same key k then 1 else 0) else 0)
  unfolding register_frame
  register_frame-held t now key consumers = elim (Bool-cases (is_empty consumers)) [
    | inl nobody ↦ rw nobody (omega arith)
    | inr some_one ↦ elim (Option-cases (find key t.pending)) [
      | inl new ↦
          rw (some_one, new)
            (ground (
              arith,
              among-store (λ f. frame_key_same f.key k) key
                  (record {
                    key = key;
                    expected = insert_all consumers;
                    released = [];
                    deadline = now + t.release_timeout;
                  })
                  t.pending,
              new,
            ))
      | inr (f, old) ↦ rw (some_one, old) (omega arith)
    ]
  ]

  settle-held :
      (t : Tracker) (key : FrameKey) (f g : PendingFrame)
      → IsUnique t.pending
      → find key t.pending ≡ some f
      → g.key ≡ f.key
      → let (t', gone) = settle t key g in held t' + reclaimed gone ≡ held t
  unfolding settle make_reclaim
  settle-held t key f g u h same = elim (Bool-cases (is_complete g)) [
    | inl done ↦
        rw done (ground (arith, among-erase (λ f. frame_key_same f.key k) key t.pending u, h, same))
    | inr more ↦
        rw more (ground (arith, among-store (λ f. frame_key_same f.key k) key g t.pending, h, same))
  ]

  mark_pending-held :
      (t : Tracker) (key : FrameKey) (c : ℕ) (x : Option PendingFrame)
      → IsUnique t.pending
      → find key t.pending ≡ x
      → let (t', gone) = mark_pending t key c x in held t' + reclaimed gone ≡ held t
  unfolding mark_pending
  mark_pending-held t key c none u h = omega arith
  mark_pending-held t key c (some f) u h = elim (Bool-cases (member c f.expected)) [
    | inl wanted ↦ elim (Bool-cases (member c f.released)) [
      | inl again ↦ rw (wanted, again) (omega arith)
      | inr new ↦ rw wanted (rw new (settle-held t key f _ u h refl))
    ]
    | inr stranger ↦ rw stranger (omega arith)
  ]

  mark_released-held :
      (t : Tracker) (r : ReleaseFrame)
      → IsUnique t.pending
      → let (t', gone) = mark_released t r in held t' + reclaimed gone ≡ held t
  unfolding mark_released
  mark_released-held t r u = elim (Bool-cases (is_release_valid r)) [
    | inl fine ↦ rw fine (mark_pending-held t (key_in r) r.consumer_id _ u refl)
    | inr bad ↦ rw bad (omega arith)
  ]

  expire_from-held :
      (now : ℕ) (m : List (FrameKey × PendingFrame))
      → among (λ f. frame_key_same f.key k) (expire_from now m).0 + reclaimed (expire_from now m).1
        ≡ among (λ f. frame_key_same f.key k) m
  unfolding expire_from make_reclaim
  expire_from-held now [] = refl
  expire_from-held now ((j, f) ∷ m) = elim (Bool-cases (leb f.deadline now)) [
    | inl due ↦ rw due (omega (arith, expire_from-held now m))
    | inr later ↦ rw later (omega (arith, expire_from-held now m))
  ]

  without-key : (c : ℕ) (f : PendingFrame) → (without c f).key ≡ f.key
  without-key c f = elim (Bool-cases (member c f.expected)) [
    | inl wanted ↦ rw wanted refl
    | inr stranger ↦ rw stranger refl
  ]

  disconnect_from-held :
      (c : ℕ) (m : List (FrameKey × PendingFrame))
      → among (λ f. frame_key_same f.key k) (disconnect_from c m).0
          + reclaimed (disconnect_from c m).1
        ≡ among (λ f. frame_key_same f.key k) m
  unfolding disconnect_from make_reclaim
  disconnect_from-held c [] = refl
  disconnect_from-held c ((j, f) ∷ m) = elim (Bool-cases (is_complete (without c f))) [
    | inl done ↦ rw (done, without-key c f) (omega (arith, disconnect_from-held c m))
    | inr more ↦ rw (more, without-key c f) (omega (arith, disconnect_from-held c m))
  ]

pub record IsBalanced (l : Ledger) : Type 0 where
  pub sound : IsTracking l.tracker
  pub balance : (k : FrameKey) → entered k l.accepted ≡ reclaimed k l.reclaims + held k l.tracker

-- A pass that returns what it takes out keeps the balance.
hand_back-IsBalanced :
    (l : Ledger) (out : Tracker × List Reclaim)
    → IsBalanced l
    → IsTracking out.0
    → ((k : FrameKey) → held k out.0 + reclaimed k out.1 ≡ held k l.tracker)
    → IsBalanced (hand_back l out)
hand_back-IsBalanced l (t, gone) v sound kept = record {
  sound = sound;
  balance = λ k.
      omega
        (arith, v.balance k, kept k, tally-append (λ r. frame_key_same r.key k) gone l.reclaims);
}

step-IsBalanced : (l : Ledger) (e : Event) → IsBalanced l → IsBalanced (step l e)
unfolding reclaim_expired reclaim_disconnected
step-IsBalanced l (registers now key consumers) v = record {
  sound = register_frame-IsTracking l.tracker now key consumers v.sound;
  balance = λ k. ground (arith, v.balance k, register_frame-held k l.tracker now key consumers);
}
step-IsBalanced l (releases message) v =
    hand_back-IsBalanced l _ v (mark_released-IsTracking l.tracker message v.sound)
      (λ k. mark_released-held k l.tracker message v.sound.unique)
step-IsBalanced l (expires now) v =
    hand_back-IsBalanced l _ v (reclaim_expired-IsTracking l.tracker now v.sound)
      (λ k. expire_from-held k now l.tracker.pending)
step-IsBalanced l (disconnects consumer) v =
    hand_back-IsBalanced l _ v (reclaim_disconnected-IsTracking l.tracker consumer v.sound)
      (λ k. disconnect_from-held k consumer l.tracker.pending)

run-IsBalanced : (l : Ledger) (es : List Event) → IsBalanced l → IsBalanced (run l es)
run-IsBalanced l [] v = v
run-IsBalanced l (e ∷ es) v = run-IsBalanced (step l e) es (step-IsBalanced l e v)

pub new_ledger-IsBalanced : (release_timeout : ℕ) → IsBalanced (new_ledger release_timeout)
unfolding new_tracker
new_ledger-IsBalanced release_timeout = record {
  sound = new_tracker-IsTracking release_timeout;
  balance = λ k. refl;
}

-- For any history of a new tracker and any frame key, the accepted registrations of the key are as
-- many as the reclaims returned for it and the frames of it still in the table.
pub reclaimed_once :
    (release_timeout : ℕ) (es : List Event) (k : FrameKey)
    → let l = run (new_ledger release_timeout) es in
      entered k l.accepted ≡ reclaimed k l.reclaims + held k l.tracker
reclaimed_once release_timeout es k =
    (run-IsBalanced (new_ledger release_timeout) es (new_ledger-IsBalanced release_timeout)).balance
      k
