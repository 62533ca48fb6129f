-- ===== src/Ipc/Release/Waiting.antt =====
-- Each frame that CameraReleaseTracker (src/ipc/camera_data_plane_v2.cpp) holds still waits for a
-- consumer, so the comparison of the two set sizes tells when all have released.
use camera_subsystem.Prelude.{
  ℕ, ◌+◌, ◌≤◌, ◌<◌, ◌≡◌, refl, ap, ◌↔◌, inl, inr, true, false, not, Option, none, some, List, [],
  ◌∷◌, arith, ◌==◌, ==_iff, Bool-cases, Option-cases, length, tally, count, is_empty, bytes_eq,
  nat_eq, find, IsUnique, store-IsUnique, erase-IsUnique, Every, Every-find, Every-store,
  Every-erase,
}
use camera_subsystem.Ipc.Release.{
  ReleaseFrame, is_release_valid, FrameKey, frame_key_eq, PendingFrame, Tracker, new_tracker,
  member, insert_all, register_frame, is_complete, settle, mark_pending, key_in, mark_released,
}

-- The consumers that have not released.
abbrev pub missing : PendingFrame → ℕ
missing f = tally (λ c. not (member c f.released)) f.expected

pub record IsCounted (f : PendingFrame) : Type 0 where
  pub once : (c : ℕ) → count c f.expected ≤ 1
  pub split : length f.released + missing f ≡ length f.expected

missing-insert :
    (c : ℕ) (rel xs : List ℕ)
    → member c rel ≡ false
    → tally (λ x. not (member x (c ∷ rel))) xs + count c xs ≡ tally (λ x. not (member x rel)) xs
missing-insert c rel [] h = omega arith
missing-insert c rel (x ∷ xs) h = elim (Bool-cases (x == c)) [
  | inl same ↦
      let e = (==_iff x c).0 same in
      ground (arith, e, ap (λ y. member y rel) e, missing-insert c rel xs h)
  | inr other ↦ ground (arith, missing-insert c rel xs h)
]

missing-nil : (xs : List ℕ) → tally (λ x. not (member x [])) xs ≡ length xs
missing-nil [] = refl
missing-nil (x ∷ xs) = omega (arith, missing-nil xs)

pub member-count : (c : ℕ) (xs : List ℕ) → member c xs ≡ true → 0 < count c xs
member-count c [] h = cc
member-count c (x ∷ xs) h = ground (arith, member-count c xs)

not_member-count : (c : ℕ) (xs : List ℕ) → member c xs ≡ false → count c xs ≡ 0
not_member-count c [] h = refl
not_member-count c (x ∷ xs) h = ground (arith, not_member-count c xs)

insert_all-once : (cs : List ℕ) (c : ℕ) → count c (insert_all cs) ≤ 1
insert_all-once [] c = omega arith
insert_all-once (x ∷ cs) c =
    ground (arith, insert_all-once cs c, not_member-count x (insert_all cs), ==_iff x c)

-- A release that is expected and new lowers the number of missing consumers by one.
pub note-IsCounted :
    (f : PendingFrame) (c : ℕ)
    → IsCounted f
    → member c f.expected ≡ true
    → member c f.released ≡ false
    → let f' = record f { released = c ∷ f.released } in IsCounted f' × (missing f' + 1 ≡ missing f)
note-IsCounted f c v wanted new =
    let fewer : missing (record f { released = c ∷ f.released }) + 1 ≡ missing f = omega (
      arith,
      missing-insert c f.released f.expected new,
      member-count c f.expected wanted,
      v.once c,
    ) in
    (record { once = v.once; split = omega (arith, v.split, fewer) }, fewer)

-- A frame in the table: counted, under its own key, and some consumer has not released.
pub record IsWaiting (k : FrameKey) (f : PendingFrame) : Type 0 where
  pub counted : IsCounted f
  pub waits : 0 < missing f
  pub keyed : f.key ≡ k

pub record IsTracking (t : Tracker) : Type 0 where
  pub entries : Every IsWaiting t.pending
  pub unique : IsUnique t.pending

-- The size test passes exactly when nobody is missing.
pub complete_iff : (f : PendingFrame) → IsCounted f → (is_complete f ≡ true) ↔ (missing f ≡ 0)
complete_iff f v = (
  λ h. omega (arith, v.split, (==_iff (length f.released) (length f.expected)).0 h),
  λ h. (==_iff (length f.released) (length f.expected)).1 (omega (arith, v.split)),
)

insert_all-pos : (cs : List ℕ) → is_empty cs ≡ false → 0 < length (insert_all cs)
insert_all-pos [] h = cc
insert_all-pos (c ∷ cs) h = elim (Bool-cases (member c (insert_all cs))) [
  | inl there ↦ rw there (member-length c (insert_all cs) there)
  | inr new ↦ rw new (omega arith)
]
  where
    member-length : (c : ℕ) (xs : List ℕ) → member c xs ≡ true → 0 < length xs
    member-length c [] h = cc
    member-length c (x ∷ xs) h = omega arith

pub new_tracker-IsTracking : (release_timeout : ℕ) → IsTracking (new_tracker release_timeout)
unfolding new_tracker
new_tracker-IsTracking release_timeout = record { entries = tt; unique = tt }

pub register_frame-IsTracking :
    (t : Tracker) (now : ℕ) (key : FrameKey) (consumers : List ℕ)
    → IsTracking t
    → IsTracking (register_frame t now key consumers).0
unfolding register_frame
register_frame-IsTracking t now key consumers v = elim (Bool-cases (is_empty consumers)) [
  | inl nobody ↦ rw nobody v
  | inr some_one ↦ elim (Option-cases (find key t.pending)) [
    | inl new ↦
        rw (some_one, new)
          (record {
            entries = Every-store IsWaiting key _ t.pending v.entries (record {
              counted = record {
                once = insert_all-once consumers;
                split = omega (arith, missing-nil (insert_all consumers));
              };
              waits =
                  omega
                    (arith, missing-nil (insert_all consumers), insert_all-pos consumers some_one);
              keyed = refl;
            });
            unique = store-IsUnique key _ t.pending v.unique;
          })
    | inr (f, old) ↦ rw (some_one, old) v
  ]
]

settle-IsTracking :
    (t : Tracker) (key : FrameKey) (f : PendingFrame)
    → IsTracking t
    → IsCounted f
    → f.key ≡ key
    → IsTracking (settle t key f).0
unfolding settle
settle-IsTracking t key f v counted keyed = elim (Bool-cases (is_complete f)) [
  | inl done ↦ rw done (record {
    entries = Every-erase IsWaiting key t.pending v.entries;
    unique = erase-IsUnique key t.pending v.unique;
  })
  | inr more ↦ rw more (record {
    entries = Every-store IsWaiting key f t.pending v.entries (record {
      counted = counted;
      waits = ground (arith, (complete_iff f counted).1);
      keyed = keyed;
    });
    unique = store-IsUnique key f t.pending v.unique;
  })
]

pub mark_pending-IsTracking :
    (t : Tracker) (key : FrameKey) (c : ℕ)
    → IsTracking t
    → (x : Option PendingFrame) → find key t.pending ≡ x
    → IsTracking (mark_pending t key c x).0
unfolding mark_pending
mark_pending-IsTracking t key c v none h = record { entries = v.entries; unique = v.unique }
mark_pending-IsTracking t key c v (some f) h = elim (Bool-cases (member c f.expected)) [
  | inl wanted ↦ elim (Bool-cases (member c f.released)) [
    | inl again ↦ rw (wanted, again) (record { entries = v.entries; unique = v.unique })
    | inr new ↦
        let w = Every-find IsWaiting key f t.pending v.entries h in
        rw wanted
          (rw new (settle-IsTracking t key _ v (note-IsCounted f c w.counted wanted new).0 w.keyed))
  ]
  | inr stranger ↦ rw stranger (record { entries = v.entries; unique = v.unique })
]

pub mark_released-IsTracking :
    (t : Tracker) (r : ReleaseFrame) → IsTracking t → IsTracking (mark_released t r).0
unfolding mark_released
mark_released-IsTracking t r v = elim (Bool-cases (is_release_valid r)) [
  | inl fine ↦ rw fine (mark_pending-IsTracking t (key_in r) r.consumer_id v _ refl)
  | inr bad ↦ rw bad v
]
