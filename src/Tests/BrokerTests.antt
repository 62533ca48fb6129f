-- ===== src/Tests/BrokerTests.antt =====
-- Small histories of FrameBroker (src/broker/frame_broker.cpp).
use camera_subsystem.Prelude.{
  ℕ, ◌≤◌, ◌≡◌, ◌≢◌, refl, ◌+◌, Bool, true, false, none, some, List, [], ◌∷◌, arith, ◌==◌,
  if◌then◌else◌, length, tally, keep, count, bytes_eq, nat_eq,
}
use camera_subsystem.Core.Words.{u64}
use camera_subsystem.Core.FrameHandle.{new_handle}
use camera_subsystem.Broker.{FrameBroker, DispatchTask, new_broker, work, publish_frame, subscribe}
use camera_subsystem.Broker.Order.{
  Event, starts, subscribes, publishes, works, run, Served, workers_take_the_best,
}
use camera_subsystem.Broker.Bounds.{tasks, IsRanked, publication_accounts}
use camera_subsystem.Broker.Subscribers.{subscribe_once}

abbrev all_alive : ℕ → Bool
all_alive s = true

-- Subscriber 1 comes first.
abbrev ranks : ℕ → ℕ
ranks s = if s == 1 then 200 else 100

abbrev history : List Event
history =
    starts 4 2
    ∷ subscribes all_alive (some 0)
    ∷ subscribes all_alive (some 1)
    ∷ publishes all_alive ranks new_handle none
    ∷ works false
    ∷ []

workers_take_the_best_example :
    let (after, taken) = work (run new_broker history) false in Served taken after.task_queue
workers_take_the_best_example = workers_take_the_best history false

-- A running broker with room for one more task.
abbrev narrow : FrameBroker
narrow = record {
  is_running = true;
  workers = 1;
  subscribers = 0 ∷ 1 ∷ [];
  task_queue = [];
  sequence = 0;
  published_frames = 0;
  dispatched_tasks = 0;
  dropped_tasks = 0;
  max_queue_size = 1;
}

publication_accounts_example :
    let (after, marked) = publish_frame narrow all_alive ranks new_handle (some 3) in
    ((ss : List ℕ) × ((q : ℕ → Bool) → tally q ss ≡ tally q (keep all_alive narrow.subscribers))
      × IsRanked ranks ss
      × ((p : DispatchTask → Bool)
          → tally p after.task_queue ≡ 0 + tally p (tasks ranks new_handle (some 3) 0 1 ss)))
    × (length after.task_queue ≡ 1)
    × (u64 after.dropped_tasks ≡ 1)
    × (after.published_frames ≡ 1)
    × (marked ≡ some 3)
publication_accounts_example =
    publication_accounts narrow all_alive ranks new_handle (some 3) refl (omega arith)

subscribe_once_example :
    let before = run new_broker history in
    let (after, okay) = subscribe before all_alive (some 2) in
    ((x : ℕ) → count x before.subscribers ≤ 1)
    × (okay ≡ (count 2 before.subscribers == 0))
    × (count 2 after.subscribers ≡ 1)
    × ((x : ℕ) → x ≢ 2 → count x after.subscribers ≡ count x before.subscribers)
subscribe_once_example = subscribe_once history all_alive 2 (refl, (refl, tt)) refl
