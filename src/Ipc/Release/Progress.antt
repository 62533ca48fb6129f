-- ===== src/Ipc/Release/Progress.antt =====
-- CameraReleaseTracker (src/ipc/camera_data_plane_v2.cpp): a frame that every consumer releases
-- leaves the table, without the timeout.
use camera_subsystem.Prelude.{
  ℕ, ◌+◌, ◌≡◌, refl, ap, ◌∙◌, ◌⊎◌, inl, inr, true, false, not, ◌||◌, Option, none, some, List, [],
  ◌∷◌, arith, ==_iff, Bool-cases, Option-cases, tally, is_empty, bytes_eq, nat_eq, find, find-store,
  find-erase, Every-find,
}
use camera_subsystem.Ipc.Release.{
  ok, make_release_frame, is_release_valid, FrameKey, frame_key_same_iff, frame_key_eq,
  PendingFrame, Tracker, member, count_unknown, insert_all, register_frame, is_complete, settle,
  mark_pending, mark_released,
}
use camera_subsystem.Ipc.Release.Waiting.{
  IsTracking, IsWaiting, register_frame-IsTracking, mark_pending-IsTracking,
}

-- Releases of one frame by some consumers, one after the other.
unfoldable pub release_all : Tracker → FrameKey → List ℕ → ℕ → Tracker
release_all t key [] ts = t
release_all t key (c ∷ cs) ts =
    release_all
      (mark_released t (make_release_frame key.stream_id key.frame_id key.buffer_id c ok ts)).0 key
      cs ts

module _ (key : FrameKey) (ts : ℕ) where
  -- A release message of a consumer reaches the frame it names.
  made_release :
      (t : Tracker) (c : ℕ)
      → mark_released t (make_release_frame key.stream_id key.frame_id key.buffer_id c ok ts)
        ≡ mark_pending t key c (find key t.pending)
  unfolding mark_released make_release_frame is_release_valid
  made_release t c = refl

  release_all-cons :
      (t : Tracker) (c : ℕ) (cs : List ℕ) (x : Option PendingFrame)
      → find key t.pending ≡ x
      → release_all t key (c ∷ cs) ts ≡ release_all (mark_pending t key c x).0 key cs ts
  unfolding release_all
  release_all-cons t c cs x h =
      ap (λ out. release_all out.0 key cs ts) (made_release t c ∙ ap (mark_pending t key c) h)

  gone_stays :
      (t : Tracker) (cs : List ℕ)
      → find key t.pending ≡ none
      → find key (release_all t key cs ts).pending ≡ none
  unfolding release_all mark_pending
  gone_stays t [] h = h
  gone_stays t (c ∷ cs) h =
      ap (λ u. find key u.pending) (release_all-cons t c cs none h)
      ∙ gone_stays (count_unknown t) cs h

  -- Each consumer of the frame has released or is about to.
  abbrev Covered : List ℕ → PendingFrame → Type 0
  Covered cs f = (x : ℕ) → member x f.expected ≡ true → (member x f.released || member x cs) ≡ true

  missing_none :
      (rel xs : List ℕ)
      → ((x : ℕ) → member x xs ≡ true → member x rel ≡ true)
      → tally (λ x. not (member x rel)) xs ≡ 0
  missing_none rel [] h = refl
  missing_none rel (x ∷ xs) h =
      ground (arith, h x, ==_iff x x, missing_none rel xs (λ y e. h y (ground (arith, e))))

  Covered-next :
      (c : ℕ) (cs : List ℕ) (f : PendingFrame)
      → Covered (c ∷ cs) f
      → Covered cs (record f { released = c ∷ f.released })
  Covered-next c cs f h x wanted = ground (arith, h x wanted)

  Covered-done :
      (c : ℕ) (cs : List ℕ) (f : PendingFrame)
      → Covered (c ∷ cs) f
      → member c f.released ≡ true
      → Covered cs f
  Covered-done c cs f h again x wanted =
      ground (arith, h x wanted, ==_iff c x, ap (λ y. member y f.released))

  Covered-stranger :
      (c : ℕ) (cs : List ℕ) (f : PendingFrame)
      → Covered (c ∷ cs) f
      → member c f.expected ≡ false
      → Covered cs f
  Covered-stranger c cs f h stranger x wanted =
      ground (arith, h x wanted, ==_iff c x, ap (λ y. member y f.expected))

  -- One release takes the frame out or brings it nearer to that.
  mark_pending-next :
      (t : Tracker) (c : ℕ) (cs : List ℕ) (f : PendingFrame)
      → find key t.pending ≡ some f
      → Covered (c ∷ cs) f
      → let t' = (mark_pending t key c (some f)).0 in
        (find key t'.pending ≡ none)
        ⊎ ((g : PendingFrame) × (find key t'.pending ≡ some g) × Covered cs g)
  unfolding mark_pending settle
  mark_pending-next t c cs f h cover = elim (Bool-cases (member c f.expected)) [
    | inl wanted ↦ elim (Bool-cases (member c f.released)) [
      | inl again ↦ rw (wanted, again) (inr (f, h, Covered-done c cs f cover again))
      | inr new ↦
          let g = record f { released = c ∷ f.released } in
          elim (Bool-cases (is_complete g)) [
            | inl done ↦ rw wanted (
                rw new (
                  rw done (
                    inl
                      (ground (arith, find-erase key key t.pending, frame_key_same_iff key key)))))
            | inr more ↦ rw wanted (
                rw new (
                  rw more (
                    inr (
                      g,
                      ground (arith, find-store key key g t.pending, frame_key_same_iff key key),
                      Covered-next c cs f cover,
                    ))))
          ]
    ]
    | inr stranger ↦ rw stranger (inr (f, h, Covered-stranger c cs f cover stranger))
  ]

  release_all-gone :
      (t : Tracker) (cs : List ℕ) (f : PendingFrame)
      → IsTracking t
      → find key t.pending ≡ some f
      → Covered cs f
      → find key (release_all t key cs ts).pending ≡ none
  release_all-gone t [] f v h cover =
      let w = Every-find IsWaiting key f t.pending v.entries h in
      absurd (
        omega
          (arith, w.waits, missing_none f.released f.expected (λ x e. ground (arith, cover x e))))
  release_all-gone t (c ∷ cs) f v h cover =
      let next = mark_pending-IsTracking t key c v (some f) h in
      let t' = (mark_pending t key c (some f)).0 in
      ap (λ u. find key u.pending) (release_all-cons t c cs (some f) h)
      ∙ elim (mark_pending-next t c cs f h cover) [
        | inl gone ↦ gone_stays t' cs gone
        | inr (g, there, covers) ↦ release_all-gone t' cs g next there covers
      ]

insert_all-member : (cs : List ℕ) (x : ℕ) → member x (insert_all cs) ≡ true → member x cs ≡ true
insert_all-member [] x h = h
insert_all-member (c ∷ cs) x h = ground (arith, insert_all-member cs x)

-- In a sound tracker, a frame that is registered anew for some consumers is out of the table after
-- each of them has sent its release message, in any order, repeated or mixed with those of
-- strangers.
pub all_released_reclaims :
    (t : Tracker) (now : ℕ) (key : FrameKey) (consumers releasing : List ℕ) (ts : ℕ)
    → IsTracking t
    → (register_frame t now key consumers).1 ≡ true
    → ((x : ℕ) → member x consumers ≡ true → member x releasing ≡ true)
    → find key (release_all (register_frame t now key consumers).0 key releasing ts).pending ≡ none
unfolding register_frame
all_released_reclaims t now key consumers releasing ts v accepted all =
    elim (Bool-cases (is_empty consumers)) [
      | inl nobody ↦ absurd (ground (arith, accepted, nobody))
      | inr some_one ↦ elim (Option-cases (find key t.pending)) [
        | inl new ↦
            let f : PendingFrame = record {
              key = key;
              expected = insert_all consumers;
              released = [];
              deadline = now + t.release_timeout;
            } in
            release_all-gone key ts (register_frame t now key consumers).0 releasing f
              (register_frame-IsTracking t now key consumers v)
              (rw (some_one, new)
                (ground (arith, find-store key key f t.pending, frame_key_same_iff key key)))
              (λ x e. all x (insert_all-member consumers x e))
        | inr (f, old) ↦ absurd (ground (arith, accepted, some_one, old))
      ]
    ]
