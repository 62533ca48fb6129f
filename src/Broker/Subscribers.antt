-- ===== src/Broker/Subscribers.antt =====
-- The subscribers of FrameBroker (src/broker/frame_broker.cpp).
use camera_subsystem.Prelude.{
  ℕ, ◌≤◌, ◌<◌, ◌≡◌, ◌≢◌, refl, ap, ◌∙◌, inl, inr, Bool, true, not, ◌||◌, Option, none, some, List,
  [], ◌∷◌, arith, leb, ◌==◌, ==_iff, Bool-cases, length, keep, count, count-append, is_empty,
  bytes_eq, nat_eq,
}
use camera_subsystem.Core.FrameHandle.{FrameHandle}
use camera_subsystem.Broker.{
  FrameBroker, DispatchTask, new_broker, start, subscribe, unsubscribe, clear_subscribers,
  cleanup_expired_subscribers, enqueue, enqueue_all, publish_live, deliver, publish_frame,
  set_max_queue_size, serve, work, stop, same_live,
}
use camera_subsystem.Broker.Bounds.{publish_running}
use camera_subsystem.Broker.Order.{
  Event, starts, subscribes, unsubscribes, clears, stops, publishes, resizes, works, cleans,
  delivers, run,
}

same_live-count :
    (alive : ℕ → Bool) (s : ℕ) (xs : List ℕ)
    → alive s ≡ true
    → same_live alive s xs ≡ not (count s xs == 0)
same_live-count alive s [] living = refl
same_live-count alive s (x ∷ xs) living = elim (Bool-cases (x == s)) [
  | inl same ↦
      let e : alive x ≡ true = ap alive ((==_iff x s).0 same) ∙ living in ground (arith, same, e)
  | inr other ↦ ground (arith, other, same_live-count alive s xs living)
]

-- Nobody is in the list twice.
abbrev pub IsOnce : List ℕ → Type 0
IsOnce xs = (x : ℕ) → count x xs ≤ 1

-- A caller of Subscribe holds the subscriber, so that it is alive.
abbrev pub AreHeld : List Event → Type 0
AreHeld [] = Unit
AreHeld (subscribes alive (some s) ∷ es) = (alive s ≡ true) × AreHeld es
AreHeld (_ ∷ es) = AreHeld es

count-keep : (p : ℕ → Bool) (x : ℕ) (xs : List ℕ) → count x (keep p xs) ≤ count x xs
count-keep p x [] = omega arith
count-keep p x (y ∷ ys) = elim (Bool-cases (p y)) [
  | inl kept ↦ rw kept (omega (arith, count-keep p x ys))
  | inr gone ↦ rw gone (omega (arith, count-keep p x ys))
]

keep-IsOnce : (p : ℕ → Bool) (xs : List ℕ) → IsOnce xs → IsOnce (keep p xs)
keep-IsOnce p xs once x = omega (arith, count-keep p x xs, once x)

subscribe-counts :
    (b : FrameBroker) (alive : ℕ → Bool) (s : ℕ)
    → alive s ≡ true
    → IsOnce b.subscribers
    → let (after, okay) = subscribe b alive (some s) in
      (okay ≡ (count s b.subscribers == 0))
      × (count s after.subscribers ≡ 1)
      × ((x : ℕ) → x ≢ s → count x after.subscribers ≡ count x b.subscribers)
unfolding subscribe
subscribe-counts b alive s living once = elim (Bool-cases (same_live alive s b.subscribers)) [
  | inl there ↦
      let found : 0 < count s b.subscribers =
        ground (arith, same_live-count alive s b.subscribers living, there) in
      rw there (ground (arith, found), omega (arith, found, once s), λ x other. refl)
  | inr new ↦
      let absent : count s b.subscribers ≡ 0 =
        ground (arith, same_live-count alive s b.subscribers living, new) in
      rw new (
        ground (arith, absent),
        ground (arith, count-append s b.subscribers (s ∷ []), absent),
        λ x other. ground (arith, count-append x b.subscribers (s ∷ []), other),
      )
]

subscribe-IsOnce :
    (b : FrameBroker) (alive : ℕ → Bool) (s : ℕ)
    → alive s ≡ true
    → IsOnce b.subscribers
    → IsOnce (subscribe b alive (some s)).0.subscribers
subscribe-IsOnce b alive s living once x =
    let (okay, taken, others) = subscribe-counts b alive s living once in
    elim (Bool-cases (x == s)) [
      | inl same ↦
          let e =
            ap (λ z. count z (subscribe b alive (some s)).0.subscribers) ((==_iff x s).0 same) in
          omega (arith, e, taken)
      | inr other ↦ omega (arith, others x (ground (arith, other)), once x)
    ]

enqueue_all-subscribers :
    (b : FrameBroker) (priority : ℕ → ℕ) (frame : FrameHandle) (ref : Option ℕ) (ss : List ℕ)
    → (enqueue_all b priority frame ref ss).subscribers ≡ b.subscribers
unfolding enqueue_all enqueue
enqueue_all-subscribers b priority frame ref [] = refl
enqueue_all-subscribers b priority frame ref (s ∷ ss) =
    enqueue_all-subscribers (enqueue b priority frame ref s) priority frame ref ss
    ∙ elim (Bool-cases (leb b.max_queue_size (length b.task_queue))) [
      | inl full ↦ rw full refl
      | inr room ↦ rw room refl
    ]

deliver-subscribers :
    (b : FrameBroker) (priority : ℕ → ℕ) (frame : FrameHandle) (ref : Option ℕ) (ss : List ℕ)
    → (deliver b priority frame ref ss).0.subscribers ≡ b.subscribers
unfolding deliver
deliver-subscribers b priority frame ref ss = elim (Bool-cases (is_empty ss)) [
  | inl nobody ↦ rw nobody refl
  | inr some_one ↦ rw some_one (enqueue_all-subscribers _ priority frame ref _)
]

serve-subscribers :
    (b : FrameBroker) (throws : Bool) (q : List DispatchTask)
    → (serve b throws q).0.subscribers ≡ b.subscribers
serve-subscribers b throws [] = refl
serve-subscribers b throws (t ∷ rest) = refl

start-subscribers :
    (b : FrameBroker) (concurrency n : ℕ) → (start b concurrency n).subscribers ≡ b.subscribers
unfolding start
start-subscribers b concurrency n = elim (Bool-cases b.is_running) [
  | inl on ↦ rw on refl
  | inr off ↦ rw off refl
]

stop-subscribers : (b : FrameBroker) → (stop b).subscribers ≡ b.subscribers
unfolding stop
stop-subscribers b = elim (Bool-cases b.is_running) [ inl on ↦ rw on refl | inr off ↦ rw off refl ]

same-IsOnce : (xs ys : List ℕ) → xs ≡ ys → IsOnce ys → IsOnce xs
same-IsOnce xs ys e once x = let same = ap (count x) e in omega (arith, same, once x)

publish_frame-IsOnce :
    (b : FrameBroker) (alive : ℕ → Bool) (priority : ℕ → ℕ) (frame : FrameHandle) (ref : Option ℕ)
    → IsOnce b.subscribers
    → IsOnce (publish_frame b alive priority frame ref).0.subscribers
unfolding publish_frame publish_live cleanup_expired_subscribers
publish_frame-IsOnce b alive priority frame ref once = elim (Bool-cases b.is_running) [
  | inr off ↦ rw off once
  | inl on ↦
      same-IsOnce _ (keep alive b.subscribers)
        (ap (λ out. out.0.subscribers) (publish_running b alive priority frame ref on)
          ∙ deliver-subscribers (cleanup_expired_subscribers b alive) priority frame ref _)
        (keep-IsOnce alive b.subscribers once)
]

run-IsOnce :
    (b : FrameBroker) (es : List Event)
    → AreHeld es
    → IsOnce b.subscribers
    → IsOnce (run b es).subscribers
unfolding cleanup_expired_subscribers unsubscribe clear_subscribers set_max_queue_size work
    subscribe
run-IsOnce b [] held once = once
run-IsOnce b (subscribes alive (some s) ∷ es) held once =
    run-IsOnce (subscribe b alive (some s)).0 es held.1 (subscribe-IsOnce b alive s held.0 once)
run-IsOnce b (subscribes alive none ∷ es) held once = run-IsOnce b es held once
run-IsOnce b (unsubscribes alive none ∷ es) held once = run-IsOnce b es held once
run-IsOnce b (unsubscribes alive (some s) ∷ es) held once =
    run-IsOnce (unsubscribe b alive (some s)) es held
      (keep-IsOnce (λ x. not (not (alive x) || x == s)) b.subscribers once)
run-IsOnce b (clears ∷ es) held once = run-IsOnce (clear_subscribers b) es held (λ x. omega arith)
run-IsOnce b (resizes n ∷ es) held once = run-IsOnce (set_max_queue_size b n) es held once
run-IsOnce b (starts concurrency n ∷ es) held once =
    run-IsOnce (start b concurrency n) es held
      (same-IsOnce _ b.subscribers (start-subscribers b concurrency n) once)
run-IsOnce b (stops ∷ es) held once =
    run-IsOnce (stop b) es held (same-IsOnce _ b.subscribers (stop-subscribers b) once)
run-IsOnce b (publishes alive priority frame ref ∷ es) held once =
    run-IsOnce (publish_frame b alive priority frame ref).0 es held
      (publish_frame-IsOnce b alive priority frame ref once)
run-IsOnce b (works throws ∷ es) held once =
    run-IsOnce (work b throws).0 es held
      (same-IsOnce _ b.subscribers (serve-subscribers b throws b.task_queue) once)
run-IsOnce b (cleans alive ∷ es) held once =
    run-IsOnce (cleanup_expired_subscribers b alive) es held (keep-IsOnce alive b.subscribers once)
run-IsOnce b (delivers priority frame ref ss ∷ es) held once =
    run-IsOnce (deliver b priority frame ref ss).0 es held
      (same-IsOnce _ b.subscribers (deliver-subscribers b priority frame ref ss) once)

-- After any history of a new broker in which each caller of Subscribe holds the subscriber, nobody
-- is in the list twice, and a further Subscribe of a live subscriber takes it up exactly when it was
-- not in the list, has it in the list once, and changes nothing for the others.
pub subscribe_once :
    (es : List Event) (alive : ℕ → Bool) (s : ℕ)
    → AreHeld es
    → alive s ≡ true
    → let before = run new_broker es in
      let (after, okay) = subscribe before alive (some s) in
      ((x : ℕ) → count x before.subscribers ≤ 1)
      × (okay ≡ (count s before.subscribers == 0))
      × (count s after.subscribers ≡ 1)
      × ((x : ℕ) → x ≢ s → count x after.subscribers ≡ count x before.subscribers)
unfolding new_broker
subscribe_once es alive s held living =
    let once = run-IsOnce new_broker es held (λ x. omega arith) in
    let (okay, taken, others) = subscribe-counts (run new_broker es) alive s living once in
    (once, okay, taken, others)
