-- ===== src/Broker/Bounds.antt =====
-- What FrameBroker (src/broker/frame_broker.cpp) keeps and drops of a publication.
use camera_subsystem.Prelude.{
  ℕ, zero, suc, ◌+◌, ◌-◌, ◌≤◌, ◌<◌, min, ◌≡◌, refl, ap, ◌∙◌, inl, inr, Bool, true, false, not,
  Option, none, List, [], ◌∷◌, arith, ltb, leb, if◌then◌else◌, Bool-cases, length, tally, keep,
  is_empty, bytes_eq, nat_eq,
}
use camera_subsystem.Broker.{
  publish_frame, publish_live, deliver, cleanup_expired_subscribers, enqueue_all, DispatchTask,
  FrameBroker, place, by_priority, push, enqueue, task_compare,
}
use camera_subsystem.Core.FrameHandle.{FrameHandle}
use camera_subsystem.Core.Words.{u64}

length-push : (t : DispatchTask) (q : List DispatchTask) → length (push t q) ≡ length q + 1
length-push t [] = omega arith
length-push t (x ∷ q) = ground (arith, length-push t q)

length-place :
    (priority : ℕ → ℕ) (s : ℕ) (ss : List ℕ) → length (place priority s ss) ≡ length ss + 1
length-place priority s [] = omega arith
length-place priority s (x ∷ ss) = ground (arith, length-place priority s ss)

length-by_priority : (priority : ℕ → ℕ) (ss : List ℕ) → length (by_priority priority ss) ≡ length ss
length-by_priority priority [] = refl
length-by_priority priority (s ∷ ss) =
    omega (arith, length-place priority s (by_priority priority ss), length-by_priority priority ss)

length-keep : (p : ℕ → Bool) (xs : List ℕ) → length (keep p xs) ≡ tally p xs
length-keep p [] = refl
length-keep p (x ∷ xs) = ground (arith, length-keep p xs)

-- How many of `n` tasks fit in a queue of length `q` with room for `m`.
abbrev pub fitting : ℕ → ℕ → ℕ → ℕ
fitting m q n = min n (m - q)

enqueue-counts :
    (b : FrameBroker) (priority : ℕ → ℕ) (frame : FrameHandle) (ref : Option ℕ) (s : ℕ)
    → let after = enqueue b priority frame ref s in
      (length after.task_queue
        ≡ length b.task_queue + fitting b.max_queue_size (length b.task_queue) 1)
      × (u64 after.dropped_tasks
          ≡ u64 (b.dropped_tasks + (1 - fitting b.max_queue_size (length b.task_queue) 1)))
      × (after.max_queue_size ≡ b.max_queue_size)
      × (after.published_frames ≡ b.published_frames)
unfolding enqueue
enqueue-counts b priority frame ref s =
    elim (Bool-cases (leb b.max_queue_size (length b.task_queue))) [
      | inl full ↦ rw full (ground arith, ground arith, refl, refl)
      | inr room ↦ rw room (
        omega (arith, length-push _ b.task_queue, fits room),
        omega (arith, fits room),
        refl,
        refl,
      )
    ]
  where
    fits :
        leb b.max_queue_size (length b.task_queue) ≡ false → length b.task_queue < b.max_queue_size
    fits room = ground (arith, room)

enqueue_all-counts :
    (b : FrameBroker) (priority : ℕ → ℕ) (frame : FrameHandle) (ref : Option ℕ) (ss : List ℕ)
    → let after = enqueue_all b priority frame ref ss in
      let fits = fitting b.max_queue_size (length b.task_queue) (length ss) in
      (length after.task_queue ≡ length b.task_queue + fits)
      × (u64 after.dropped_tasks ≡ u64 (b.dropped_tasks + (length ss - fits)))
      × (after.published_frames ≡ b.published_frames)
unfolding enqueue_all
enqueue_all-counts b priority frame ref [] = (omega arith, omega arith, refl)
enqueue_all-counts b priority frame ref (s ∷ ss) =
    let (grown, lost, same, published) = enqueue-counts b priority frame ref s in
    let (grown', lost', published') =
      enqueue_all-counts (enqueue b priority frame ref s) priority frame ref ss in
    (
      omega (arith, grown, grown', same),
      omega (arith, grown, lost, same, lost'),
      published' ∙ published,
    )

publish_live-counts :
    (b : FrameBroker) (priority : ℕ → ℕ) (frame : FrameHandle) (ref : Option ℕ)
    → is_empty b.subscribers ≡ false
    → let (after, marked) = publish_live b priority frame ref in
      let n = length b.subscribers in
      let fits = fitting b.max_queue_size (length b.task_queue) n in
      (length after.task_queue ≡ length b.task_queue + fits)
      × (u64 after.dropped_tasks ≡ u64 (b.dropped_tasks + (n - fits)))
      × (after.published_frames ≡ u64 (b.published_frames + 1))
      × (marked ≡ ref)
unfolding publish_live deliver
publish_live-counts b priority frame ref some_one =
    let ranked = length-by_priority priority b.subscribers in
    let (grown, lost, published) =
      enqueue_all-counts (record b { published_frames = u64 (b.published_frames + 1) }) priority
        frame ref (by_priority priority b.subscribers) in
    rw some_one (omega (arith, grown, ranked), omega (arith, lost, ranked), published, refl)

keep-some : (p : ℕ → Bool) (xs : List ℕ) → 0 < tally p xs → is_empty (keep p xs) ≡ false
keep-some p xs h = elim (Bool-cases (is_empty (keep p xs))) [
  | inl nobody ↦ absurd (omega (arith, h, length-keep p xs, empty-length (keep p xs) nobody))
  | inr some_one ↦ some_one
]
  where
    empty-length : (ys : List ℕ) → is_empty ys ≡ true → length ys ≡ 0
    empty-length [] e = refl
    empty-length (y ∷ ys) e = cc

pub publish_running :
    (b : FrameBroker) (alive : ℕ → Bool) (priority : ℕ → ℕ) (frame : FrameHandle) (ref : Option ℕ)
    → b.is_running ≡ true
    → publish_frame b alive priority frame ref
      ≡ publish_live (cleanup_expired_subscribers b alive) priority frame ref
unfolding publish_frame
publish_running b alive priority frame ref on =
    ap
      (λ r.
        if not r
        then (b, none)
        else publish_live (cleanup_expired_subscribers b alive) priority frame ref)
      on

abbrev pub task : (ℕ → ℕ) → FrameHandle → Option ℕ → ℕ → ℕ → DispatchTask
task priority frame ref sequence s = record {
  frame = frame;
  subscriber = s;
  buffer_ref = ref;
  priority = priority s;
  sequence = sequence;
}

-- The tasks of a publication for the subscribers in order, with numbers from `sequence` on, as far as
-- there is room.
abbrev pub tasks : (ℕ → ℕ) → FrameHandle → Option ℕ → ℕ → ℕ → List ℕ → List DispatchTask
tasks priority frame ref sequence zero ss = []
tasks priority frame ref sequence (suc room) [] = []
tasks priority frame ref sequence (suc room) (s ∷ ss) =
    task priority frame ref sequence s ∷ tasks priority frame ref (u64 (sequence + 1)) room ss

tally-push :
    (p : DispatchTask → Bool) (t : DispatchTask) (q : List DispatchTask)
    → tally p (push t q) ≡ (if p t then 1 else 0) + tally p q
tally-push p t [] = omega arith
tally-push p t (x ∷ q) = elim (Bool-cases (task_compare t x)) [
  | inl worse ↦ rw worse (omega (arith, tally-push p t q))
  | inr better ↦ rw better refl
]

enqueue_full :
    (b : FrameBroker) (priority : ℕ → ℕ) (frame : FrameHandle) (ref : Option ℕ) (s : ℕ)
    → leb b.max_queue_size (length b.task_queue) ≡ true
    → enqueue b priority frame ref s ≡ record b { dropped_tasks = u64 (b.dropped_tasks + 1) }
unfolding enqueue
enqueue_full b priority frame ref s full = rw full refl

enqueue_free :
    (b : FrameBroker) (priority : ℕ → ℕ) (frame : FrameHandle) (ref : Option ℕ) (s : ℕ)
    → leb b.max_queue_size (length b.task_queue) ≡ false
    → enqueue b priority frame ref s ≡ record b {
      task_queue = push (task priority frame ref b.sequence s) b.task_queue;
      sequence = u64 (b.sequence + 1);
    }
unfolding enqueue
enqueue_free b priority frame ref s free = rw free refl

enqueue_all-tally :
    (p : DispatchTask → Bool) (b : FrameBroker) (priority : ℕ → ℕ) (frame : FrameHandle)
    (ref : Option ℕ) (ss : List ℕ) (room : ℕ)
    → room ≡ b.max_queue_size - length b.task_queue
    → tally p (enqueue_all b priority frame ref ss).task_queue
      ≡ tally p b.task_queue + tally p (tasks priority frame ref b.sequence room ss)
unfolding enqueue_all
enqueue_all-tally p b priority frame ref [] zero e = omega arith
enqueue_all-tally p b priority frame ref [] (suc room) e = omega arith
enqueue_all-tally p b priority frame ref (s ∷ ss) zero e =
    let full : leb b.max_queue_size (length b.task_queue) ≡ true = ground (arith, e) in
    let after : FrameBroker = record b { dropped_tasks = u64 (b.dropped_tasks + 1) } in
    ap (λ x. tally p (enqueue_all x priority frame ref ss).task_queue)
      (enqueue_full b priority frame ref s full)
    ∙ enqueue_all-tally p after priority frame ref ss zero e
enqueue_all-tally p b priority frame ref (s ∷ ss) (suc room) e =
    let free : leb b.max_queue_size (length b.task_queue) ≡ false = ground (arith, e) in
    let t = task priority frame ref b.sequence s in
    let after : FrameBroker = record b {
      task_queue = push t b.task_queue;
      sequence = u64 (b.sequence + 1);
    } in
    let left : room ≡ b.max_queue_size - length (push t b.task_queue) =
      omega (arith, e, length-push t b.task_queue) in
    let more = enqueue_all-tally p after priority frame ref ss room left in
    let one = tally-push p t b.task_queue in
    ap (λ x. tally p (enqueue_all x priority frame ref ss).task_queue)
      (enqueue_free b priority frame ref s free)
    ∙ omega (arith, more, one)

tally-by_priority :
    (q : ℕ → Bool) (priority : ℕ → ℕ) (ss : List ℕ) → tally q (by_priority priority ss) ≡ tally q ss
tally-by_priority q priority [] = refl
tally-by_priority q priority (s ∷ ss) =
    omega (arith, tally-place (by_priority priority ss), tally-by_priority q priority ss)
  where
    tally-place :
        (xs : List ℕ) → tally q (place priority s xs) ≡ (if q s then 1 else 0) + tally q xs
    tally-place [] = omega arith
    tally-place (x ∷ xs) = elim (Bool-cases (ltb (priority s) (priority x))) [
      | inl behind ↦ rw behind (omega (arith, tally-place xs))
      | inr before ↦ rw before refl
    ]

-- Nobody in the list has a higher priority than `s`.
abbrev pub Tops : (ℕ → ℕ) → ℕ → List ℕ → Type 0
Tops priority s [] = Unit
Tops priority s (x ∷ xs) = (priority x ≤ priority s) × Tops priority s xs

abbrev pub IsRanked : (ℕ → ℕ) → List ℕ → Type 0
IsRanked priority [] = Unit
IsRanked priority (x ∷ xs) = Tops priority x xs × IsRanked priority xs

Tops-trans :
    (priority : ℕ → ℕ) (s x : ℕ) (xs : List ℕ)
    → priority x ≤ priority s
    → Tops priority x xs
    → Tops priority s xs
Tops-trans priority s x [] le h = tt
Tops-trans priority s x (y ∷ ys) le h = (omega (arith, le, h.0), Tops-trans priority s x ys le h.1)

Tops-place :
    (priority : ℕ → ℕ) (s x : ℕ) (xs : List ℕ)
    → priority s ≤ priority x
    → Tops priority x xs
    → Tops priority x (place priority s xs)
Tops-place priority s x [] le h = (le, tt)
Tops-place priority s x (y ∷ ys) le h = elim (Bool-cases (ltb (priority s) (priority y))) [
  | inl behind ↦ rw behind (h.0, Tops-place priority s x ys le h.1)
  | inr before ↦ rw before (le, h)
]

place-IsRanked :
    (priority : ℕ → ℕ) (s : ℕ) (xs : List ℕ)
    → IsRanked priority xs
    → IsRanked priority (place priority s xs)
place-IsRanked priority s [] h = (tt, tt)
place-IsRanked priority s (x ∷ xs) h = elim (Bool-cases (ltb (priority s) (priority x))) [
  | inl behind ↦
      rw behind
        (Tops-place priority s x xs (ground (arith, behind)) h.0, place-IsRanked priority s xs h.1)
  | inr before ↦
      let le : priority x ≤ priority s = ground (arith, before) in
      rw before ((le, Tops-trans priority s x xs le h.0), h)
]

by_priority-IsRanked :
    (priority : ℕ → ℕ) (ss : List ℕ) → IsRanked priority (by_priority priority ss)
by_priority-IsRanked priority [] = tt
by_priority-IsRanked priority (s ∷ ss) =
    place-IsRanked priority s (by_priority priority ss) (by_priority-IsRanked priority ss)

publish_live-tally :
    (p : DispatchTask → Bool) (b : FrameBroker) (priority : ℕ → ℕ) (frame : FrameHandle)
    (ref : Option ℕ)
    → is_empty b.subscribers ≡ false
    → tally p (publish_live b priority frame ref).0.task_queue
      ≡ tally p b.task_queue
        + tally p (
            tasks priority frame ref b.sequence
              (b.max_queue_size - length b.task_queue)
              (by_priority priority b.subscribers))
unfolding publish_live deliver
publish_live-tally p b priority frame ref some_one = rw some_one (
    enqueue_all-tally p (record b { published_frames = u64 (b.published_frames + 1) }) priority
      frame ref (by_priority priority b.subscribers) (b.max_queue_size - length b.task_queue) refl)

-- On a running broker with a live subscriber, a publication adds to the queue exactly the tasks of
-- the live subscribers, each once and the highest priority first, with its frame, its buffer, its
-- priority and the next sequence numbers, as long as there is room under the maximum; the tasks that
-- wait stay. It counts each task beyond as dropped (modulo 2^64), counts one published frame and
-- marks the buffer in flight.
pub publication_accounts :
    (b : FrameBroker) (alive : ℕ → Bool) (priority : ℕ → ℕ) (frame : FrameHandle) (ref : Option ℕ)
    → b.is_running ≡ true
    → 0 < tally alive b.subscribers
    → let (after, marked) = publish_frame b alive priority frame ref in
      let n = tally alive b.subscribers in
      let room = b.max_queue_size - length b.task_queue in
      ((ss : List ℕ) × ((q : ℕ → Bool) → tally q ss ≡ tally q (keep alive b.subscribers))
        × IsRanked priority ss
        × ((p : DispatchTask → Bool)
            → tally p after.task_queue
              ≡ tally p b.task_queue + tally p (tasks priority frame ref b.sequence room ss)))
      × (length after.task_queue ≡ length b.task_queue + min n room)
      × (u64 after.dropped_tasks ≡ u64 (b.dropped_tasks + (n - min n room)))
      × (after.published_frames ≡ u64 (b.published_frames + 1))
      × (marked ≡ ref)
unfolding publish_frame publish_live deliver cleanup_expired_subscribers
publication_accounts b alive priority frame ref on some_one =
    let live = length-keep alive b.subscribers in
    let somebody = keep-some alive b.subscribers some_one in
    let cleaned = cleanup_expired_subscribers b alive in
    let (grown, lost, published, marks) = publish_live-counts cleaned priority frame ref somebody in
    let same = publish_running b alive priority frame ref on in
    let order = by_priority priority (keep alive b.subscribers) in
    (
      (
        order,
        λ q. tally-by_priority q priority (keep alive b.subscribers),
        by_priority-IsRanked priority (keep alive b.subscribers),
        λ p.
            ap (λ out. tally p out.0.task_queue) same
            ∙ publish_live-tally p cleaned priority frame ref somebody,
      ),
      ap (λ out. length out.0.task_queue) same ∙ omega (arith, grown, live),
      ap (λ out. u64 out.0.dropped_tasks) same ∙ omega (arith, lost, live),
      ap (λ out. out.0.published_frames) same ∙ published,
      ap (λ out. out.1) same ∙ marks,
    )
