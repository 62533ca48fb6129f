-- ===== src/Broker/Order.antt =====
-- The order in which the workers of FrameBroker (src/broker/frame_broker.cpp) take tasks.
use camera_subsystem.Prelude.{
  ℕ, ◌≤◌, ◌<◌, ◌≡◌, refl, ◌⊎◌, inl, inr, Bool, true, false, Option, none, some, List, [], ◌∷◌,
  arith, leb, ◌==◌, Bool-cases, length, is_empty, bytes_eq, nat_eq,
}
use camera_subsystem.Core.FrameHandle.{FrameHandle}
use camera_subsystem.Broker.{
  DispatchTask, FrameBroker, new_broker, start, subscribe, unsubscribe, clear_subscribers,
  cleanup_expired_subscribers, task_compare, push, enqueue, enqueue_all, publish_frame,
  set_max_queue_size, serve, work, stop, publish_live, deliver,
}

-- No task of the list is better than the first.
abbrev pub Leads : DispatchTask → List DispatchTask → Type 0
Leads t [] = Unit
Leads t (x ∷ xs) = (task_compare t x ≡ false) × Leads t xs

abbrev pub IsSorted : List DispatchTask → Type 0
IsSorted [] = Unit
IsSorted (x ∷ xs) = Leads x xs × IsSorted xs

task_compare-asym : (a b : DispatchTask) → task_compare a b ≡ true → task_compare b a ≡ false
task_compare-asym a b h = ground (arith, h)

task_compare_trans :
    (a b c : DispatchTask)
    → task_compare a b ≡ false
    → task_compare b c ≡ false
    → task_compare a c ≡ false
task_compare_trans a b c h k = ground (arith, h, k)

Leads-trans :
    (a b : DispatchTask) (xs : List DispatchTask)
    → task_compare a b ≡ false
    → Leads b xs
    → Leads a xs
Leads-trans a b [] h l = tt
Leads-trans a b (x ∷ xs) h l = (task_compare_trans a b x h l.0, Leads-trans a b xs h l.1)

Leads-push :
    (a t : DispatchTask) (xs : List DispatchTask)
    → task_compare a t ≡ false
    → Leads a xs
    → Leads a (push t xs)
Leads-push a t [] h l = (h, tt)
Leads-push a t (x ∷ xs) h l = elim (Bool-cases (task_compare t x)) [
  | inl worse ↦ rw worse (l.0, Leads-push a t xs h l.1)
  | inr better ↦ rw better (h, l)
]

push-IsSorted : (t : DispatchTask) (xs : List DispatchTask) → IsSorted xs → IsSorted (push t xs)
push-IsSorted t [] s = (tt, tt)
push-IsSorted t (x ∷ xs) s = elim (Bool-cases (task_compare t x)) [
  | inl worse ↦
      rw worse (Leads-push x t xs (task_compare-asym t x worse) s.0, push-IsSorted t xs s.1)
  | inr better ↦ rw better ((better, Leads-trans t x xs better s.0), s)
]

enqueue_all-IsSorted :
    (b : FrameBroker) (priority : ℕ → ℕ) (frame : FrameHandle) (ref : Option ℕ) (ss : List ℕ)
    → IsSorted b.task_queue
    → IsSorted (enqueue_all b priority frame ref ss).task_queue
unfolding enqueue_all enqueue
enqueue_all-IsSorted b priority frame ref [] h = h
enqueue_all-IsSorted b priority frame ref (s ∷ ss) h =
    enqueue_all-IsSorted (enqueue b priority frame ref s) priority frame ref ss
      (elim (Bool-cases (leb b.max_queue_size (length b.task_queue))) [
        | inl full ↦ rw full h
        | inr room ↦ rw room (push-IsSorted _ b.task_queue h)
      ])

-- What happens to a broker: the calls of its methods, and the turns of its workers; `cleans` and
-- `delivers` are the two halves of a publication that others come between.
pub data Event : Type 0 where
  starts : ℕ → ℕ → Event
  subscribes unsubscribes : (ℕ → Bool) → Option ℕ → Event
  clears stops : Event
  publishes : (ℕ → Bool) → (ℕ → ℕ) → FrameHandle → Option ℕ → Event
  resizes : ℕ → Event
  works : Bool → Event
  cleans : (ℕ → Bool) → Event
  delivers : (ℕ → ℕ) → FrameHandle → Option ℕ → List ℕ → Event

abbrev pub step : FrameBroker → Event → FrameBroker
step b (starts concurrency n) = start b concurrency n
step b (subscribes alive s) = (subscribe b alive s).0
step b (unsubscribes alive s) = unsubscribe b alive s
step b clears = clear_subscribers b
step b stops = stop b
step b (publishes alive priority frame ref) = (publish_frame b alive priority frame ref).0
step b (resizes n) = set_max_queue_size b n
step b (works throws) = (work b throws).0
step b (cleans alive) = cleanup_expired_subscribers b alive
step b (delivers priority frame ref ss) = (deliver b priority frame ref ss).0

abbrev pub run : FrameBroker → List Event → FrameBroker
run b [] = b
run b (e ∷ es) = run (step b e) es

serve-IsSorted :
    (b : FrameBroker) (throws : Bool) (q : List DispatchTask)
    → IsSorted b.task_queue
    → IsSorted q
    → IsSorted (serve b throws q).0.task_queue
serve-IsSorted b throws [] old h = old
serve-IsSorted b throws (t ∷ rest) old h = h.1

deliver-IsSorted :
    (b : FrameBroker) (priority : ℕ → ℕ) (frame : FrameHandle) (ref : Option ℕ) (ss : List ℕ)
    → IsSorted b.task_queue
    → IsSorted (deliver b priority frame ref ss).0.task_queue
unfolding deliver
deliver-IsSorted b priority frame ref ss h = elim (Bool-cases (is_empty ss)) [
  | inl nobody ↦ rw nobody h
  | inr some_one ↦ rw some_one (enqueue_all-IsSorted _ priority frame ref _ h)
]

step-IsSorted :
    (b : FrameBroker) (e : Event) → IsSorted b.task_queue → IsSorted (step b e).task_queue
unfolding start subscribe unsubscribe clear_subscribers stop publish_frame
    cleanup_expired_subscribers work set_max_queue_size publish_live
step-IsSorted b (starts concurrency n) h = ground (arith, h)
step-IsSorted b (subscribes alive none) h = h
step-IsSorted b (subscribes alive (some s)) h = ground (arith, h)
step-IsSorted b (unsubscribes alive none) h = h
step-IsSorted b (unsubscribes alive (some s)) h = h
step-IsSorted b clears h = h
step-IsSorted b stops h = elim (Bool-cases b.is_running) [ inl on ↦ rw on tt | inr off ↦ rw off h ]
step-IsSorted b (publishes alive priority frame ref) h = elim (Bool-cases b.is_running) [
  | inr off ↦ rw off h
  | inl on ↦ rw on (deliver-IsSorted _ priority frame ref _ h)
]
step-IsSorted b (resizes n) h = h
step-IsSorted b (works throws) h = serve-IsSorted b throws b.task_queue h h
step-IsSorted b (cleans alive) h = h
step-IsSorted b (delivers priority frame ref ss) h = deliver-IsSorted b priority frame ref ss h

run-IsSorted :
    (b : FrameBroker) (es : List Event) → IsSorted b.task_queue → IsSorted (run b es).task_queue
run-IsSorted b [] h = h
run-IsSorted b (e ∷ es) h = run-IsSorted (step b e) es (step-IsSorted b e h)

new_broker-IsSorted : IsSorted new_broker.task_queue
unfolding new_broker
new_broker-IsSorted = tt

-- The first task has the higher priority, or the same one and no later sequence number.
abbrev pub Ahead : DispatchTask → DispatchTask → Type 0
Ahead t x = (x.priority < t.priority) ⊎ ((x.priority ≡ t.priority) × (t.sequence ≤ x.sequence))

abbrev pub AheadOfAll : DispatchTask → List DispatchTask → Type 0
AheadOfAll t [] = Unit
AheadOfAll t (x ∷ xs) = Ahead t x × AheadOfAll t xs

task_compare-Ahead : (t x : DispatchTask) → task_compare t x ≡ false → Ahead t x
task_compare-Ahead t x h = elim (Bool-cases (t.priority == x.priority)) [
  | inl same ↦ inr (ground (arith, same), ground (arith, h, same))
  | inr other ↦ inl (ground (arith, h, other))
]

Leads-AheadOfAll : (t : DispatchTask) (xs : List DispatchTask) → Leads t xs → AheadOfAll t xs
Leads-AheadOfAll t [] h = tt
Leads-AheadOfAll t (x ∷ xs) h = (task_compare-Ahead t x h.0, Leads-AheadOfAll t xs h.1)

-- What a worker takes, against what it leaves.
abbrev pub Served : Option DispatchTask → List DispatchTask → Type 0
Served none left = left ≡ []
Served (some t) left = AheadOfAll t left

serve-Served :
    (b : FrameBroker) (throws : Bool) (q : List DispatchTask)
    → b.task_queue ≡ q
    → IsSorted q
    → Served (serve b throws q).1 (serve b throws q).0.task_queue
serve-Served b throws [] e h = e
serve-Served b throws (t ∷ rest) e h = Leads-AheadOfAll t rest h.0

-- After any history of a new broker, the task that a worker takes has, against each task that it
-- leaves waiting, the higher priority, or the same priority and no later sequence number; a worker
-- gets none only when no task waits.
pub workers_take_the_best :
    (es : List Event) (throws : Bool)
    → let (after, taken) = work (run new_broker es) throws in Served taken after.task_queue
unfolding work
workers_take_the_best es throws =
    let b = run new_broker es in
    serve-Served b throws b.task_queue refl (run-IsSorted new_broker es new_broker-IsSorted)
