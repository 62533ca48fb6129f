-- ===== src/Broker.antt =====
-- src/broker/frame_broker.cpp with its header. A subscriber is a number that is never reused;
-- whether its object is alive is an argument, as a weak pointer tells. GetPriority is the argument
-- `priority`. The queue is kept best task first, the order in which `top` and `pop` take tasks out;
-- what is done under a lock is one step. A publication takes the lock of the subscribers and then the
-- lock of the queue: `publish_frame` is both, `cleanup_expired_subscribers` and `deliver` are one each.
pub mod Order
pub mod Bounds
pub mod Subscribers
use camera_subsystem.Prelude.{
  ℕ, zero, suc, ◌+◌, ◌-◌, ◌*◌, ◌/◌, ◌%◌, ◌^◌, ◌≤◌, ◌<◌, min, max, ◌≡◌, refl, sym, ap, subst, ◌∙◌,
  ◌≢◌, ◌↔◌, ◌⊎◌, inl, inr, Bool, true, false, not, ◌&&◌, ◌||◌, Option, none, some, List, [], ◌∷◌,
  ◌++◌, map, arith, dec_lt, ℕ_discrete, ltb, leb, ◌==◌, if◌then◌else◌, ==_iff, Bool-cases,
  Option-cases, length, get_elem?, set, tally, keep, length-append, length-set, get_elem?-set,
  get_elem?-lt, tally-append, tally-set, tally-le-length, count, count-append, tally_pos,
  get_elem?-snoc, tally_two, tally-eq-zero, Bytes, codes, c_str, padded, is_empty, bytes_same,
  bytes_same_iff, bytes_eq, nat_eq, Eq, ◌=?◌, find, store, erase, find-store, find-erase, IsUnique,
  store-IsUnique, erase-IsUnique, erase_absent, among, weight, among-store, among-erase,
  weight-le-among, among-le-length, length-store-le, length-erase-le, length-store_new,
  length-store_old, length-erase_old, find-store-store, find-erase-store, Every, Every-find,
  Every-store, Every-erase,
}
use camera_subsystem.Core.FrameHandle.{FrameHandle}
use camera_subsystem.Core.Words.{u64}

pub record DispatchTask : Type 0 where
  pub frame : FrameHandle
  pub subscriber : ℕ
  pub buffer_ref : Option ℕ
  pub priority : ℕ
  pub sequence : ℕ

pub record FrameBroker : Type 0 where
  pub is_running : Bool
  pub workers : ℕ
  pub subscribers : List ℕ
  pub task_queue : List DispatchTask
  pub sequence : ℕ
  pub published_frames : ℕ
  pub dispatched_tasks : ℕ
  pub dropped_tasks : ℕ
  pub max_queue_size : ℕ

unfoldable pub new_broker : FrameBroker
new_broker = record {
  is_running = false;
  workers = 0;
  subscribers = [];
  task_queue = [];
  sequence = 0;
  published_frames = 0;
  dispatched_tasks = 0;
  dropped_tasks = 0;
  max_queue_size = 1024;
}

-- `concurrency` is what the standard library says the hardware has.
unfoldable pub start : FrameBroker → ℕ → ℕ → FrameBroker
start b concurrency worker_count = if b.is_running then b else record b {
  is_running = true;
  workers = b.workers + (if worker_count == 0 then max 1 concurrency else worker_count);
}

abbrev pub same_live : (ℕ → Bool) → ℕ → List ℕ → Bool
same_live alive s [] = false
same_live alive s (x ∷ xs) = (alive x && x == s) || same_live alive s xs

unfoldable pub subscribe : FrameBroker → (ℕ → Bool) → Option ℕ → FrameBroker × Bool
subscribe b alive none = (b, false)
subscribe b alive (some s) =
    if same_live alive s b.subscribers
    then (b, false)
    else (record b { subscribers = b.subscribers ++ s ∷ [] }, true)

unfoldable pub unsubscribe : FrameBroker → (ℕ → Bool) → Option ℕ → FrameBroker
unsubscribe b alive none = b
unsubscribe b alive (some s) = record b {
  subscribers = keep (λ x. not (not (alive x) || x == s)) b.subscribers;
}

unfoldable pub clear_subscribers : FrameBroker → FrameBroker
clear_subscribers b = record b { subscribers = [] }

unfoldable pub get_subscriber_count : FrameBroker → (ℕ → Bool) → ℕ
get_subscriber_count b alive = tally alive b.subscribers

-- CleanupExpiredSubscribersLocked.
unfoldable pub cleanup_expired_subscribers : FrameBroker → (ℕ → Bool) → FrameBroker
cleanup_expired_subscribers b alive = record b { subscribers = keep alive b.subscribers }

-- `std::sort` with the highest priority first. It leaves the order of equals open; here they keep
-- the order they have.
abbrev pub place : (ℕ → ℕ) → ℕ → List ℕ → List ℕ
place priority s [] = s ∷ []
place priority s (x ∷ xs) =
    if ltb (priority s) (priority x) then x ∷ place priority s xs else s ∷ x ∷ xs

abbrev pub by_priority : (ℕ → ℕ) → List ℕ → List ℕ
by_priority priority [] = []
by_priority priority (s ∷ ss) = place priority s (by_priority priority ss)

-- TaskCompare: whether the first task is worse.
abbrev pub task_compare : DispatchTask → DispatchTask → Bool
task_compare lhs rhs =
    if not (lhs.priority == rhs.priority)
    then ltb lhs.priority rhs.priority
    else ltb rhs.sequence lhs.sequence

abbrev pub push : DispatchTask → List DispatchTask → List DispatchTask
push t [] = t ∷ []
push t (x ∷ xs) = if task_compare t x then x ∷ push t xs else t ∷ x ∷ xs

-- The turn of one subscriber in the loop of PublishFrame.
unfoldable pub enqueue : FrameBroker → (ℕ → ℕ) → FrameHandle → Option ℕ → ℕ → FrameBroker
enqueue b priority frame buffer_ref s =
    if leb b.max_queue_size (length b.task_queue)
    then record b { dropped_tasks = u64 (b.dropped_tasks + 1) }
    else record b {
      task_queue =
          push
            (record {
              frame = frame;
              subscriber = s;
              buffer_ref = buffer_ref;
              priority = priority s;
              sequence = b.sequence;
            })
            b.task_queue;
      sequence = u64 (b.sequence + 1);
    }

unfoldable pub enqueue_all : FrameBroker → (ℕ → ℕ) → FrameHandle → Option ℕ → List ℕ → FrameBroker
enqueue_all b priority frame buffer_ref [] = b
enqueue_all b priority frame buffer_ref (s ∷ ss) =
    enqueue_all (enqueue b priority frame buffer_ref s) priority frame buffer_ref ss

-- The part of PublishFrame under the lock of the queue, for the subscribers that it has collected.
unfoldable pub deliver :
    FrameBroker → (ℕ → ℕ) → FrameHandle → Option ℕ → List ℕ → FrameBroker × Option ℕ
deliver b priority frame buffer_ref subscribers = if is_empty subscribers then (b, none) else (
  enqueue_all (record b { published_frames = u64 (b.published_frames + 1) }) priority frame
      buffer_ref (by_priority priority subscribers),
  buffer_ref,
)

-- PublishFrame after the cleanup of the subscribers, when nothing comes between its locks.
unfoldable pub publish_live :
    FrameBroker → (ℕ → ℕ) → FrameHandle → Option ℕ → FrameBroker × Option ℕ
unfolding deliver
publish_live b priority frame buffer_ref = deliver b priority frame buffer_ref b.subscribers

-- PublishFrame, with the buffer that it marks in flight, if it does.
unfoldable pub publish_frame :
    FrameBroker → (ℕ → Bool) → (ℕ → ℕ) → FrameHandle → Option ℕ → FrameBroker × Option ℕ
unfolding cleanup_expired_subscribers
publish_frame b alive priority frame buffer_ref =
    if not b.is_running
    then (b, none)
    else publish_live (cleanup_expired_subscribers b alive) priority frame buffer_ref

unfoldable pub set_max_queue_size : FrameBroker → ℕ → FrameBroker
set_max_queue_size b n = record b { max_queue_size = n }

abbrev pub serve : FrameBroker → Bool → List DispatchTask → FrameBroker × Option DispatchTask
serve b throws [] = (b, none)
serve b throws (t ∷ rest) = (
  record b {
    task_queue = rest;
    dispatched_tasks = if throws then b.dispatched_tasks else u64 (b.dispatched_tasks + 1);
  },
  some t,
)

-- One turn of WorkerLoop: the task that it takes out and hands to its subscriber, which may throw.
unfoldable pub work : FrameBroker → Bool → FrameBroker × Option DispatchTask
work b throws = serve b throws b.task_queue

-- The end of Stop, once the workers have returned.
unfoldable pub stop : FrameBroker → FrameBroker
stop b =
    if not b.is_running then b else record b { is_running = false; workers = 0; task_queue = [] }

pub record BrokerStats : Type 0 where
  pub published_frames : ℕ
  pub dispatched_tasks : ℕ
  pub dropped_tasks : ℕ
  pub queue_size : ℕ
  pub subscriber_count : ℕ

unfoldable pub get_stats : FrameBroker → (ℕ → Bool) → BrokerStats
unfolding get_subscriber_count
get_stats b alive = record {
  published_frames = b.published_frames;
  dispatched_tasks = b.dispatched_tasks;
  dropped_tasks = b.dropped_tasks;
  queue_size = length b.task_queue;
  subscriber_count = get_subscriber_count b alive;
}
