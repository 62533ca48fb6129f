-- ===== src/Ipc/Release.antt =====
-- src/ipc/camera_data_plane_v2.cpp with its header: the release messages, CameraReleaseTracker and
-- the part of CameraReleaseServer behind its sockets. A method that locks `mutex_` is one step.
-- Clock readings are arguments; an unordered_set is a list without repetition.
pub mod Waiting
pub mod Sweeps
pub mod Ledger
pub mod Progress
use camera_subsystem.Prelude.{
  ℕ, ◌+◌, ◌≡◌, ◌↔◌, Bool, true, false, not, ◌&&◌, ◌||◌, Option, none, some, List, [], ◌∷◌, arith,
  leb, ◌==◌, if◌then◌else◌, length, is_empty, bytes_eq, nat_eq, Eq, find, store, erase,
}
use camera_subsystem.Core.Words.{u32, u64}

abbrev pub release_magic : ℕ
release_magic = 0x43525632

abbrev pub release_version : ℕ
release_version = 1

-- sizeof(CameraReleaseFrameV2): 48 bytes of fields and 32 reserved ones.
abbrev pub release_size : ℕ
release_size = 80

-- CameraReleaseStatus; a message carries its code.
pub data ReleaseStatus : Type 0 where
  ok dropped failed timeout : ReleaseStatus

abbrev pub status_code : ReleaseStatus → ℕ
status_code ok = 0
status_code dropped = 1
status_code failed = 2
status_code timeout = 3

pub record ReleaseFrame : Type 0 where
  pub magic : ℕ
  pub version : ℕ
  pub header_size : ℕ
  pub stream_id : ℕ
  pub frame_id : ℕ
  pub buffer_id : ℕ
  pub consumer_id : ℕ
  pub status : ℕ
  pub timestamp_ns : ℕ

unfoldable pub make_release_frame : ℕ → ℕ → ℕ → ℕ → ReleaseStatus → ℕ → ReleaseFrame
make_release_frame stream_id frame_id buffer_id consumer_id status timestamp_ns = record {
  magic = release_magic;
  version = release_version;
  header_size = release_size;
  stream_id = stream_id;
  frame_id = frame_id;
  buffer_id = buffer_id;
  consumer_id = consumer_id;
  status = status_code status;
  timestamp_ns = timestamp_ns;
}

unfoldable pub is_release_valid : ReleaseFrame → Bool
is_release_valid r =
    r.magic == release_magic && r.version == release_version && r.header_size == release_size

pub record FrameKey : Type 0 where
  pub stream_id : ℕ
  pub frame_id : ℕ
  pub buffer_id : ℕ

-- `operator==`.
abbrev pub frame_key_same : FrameKey → FrameKey → Bool
frame_key_same a b =
    a.stream_id == b.stream_id && a.frame_id == b.frame_id && a.buffer_id == b.buffer_id

pub frame_key_same_iff : (a b : FrameKey) → (frame_key_same a b ≡ true) ↔ (a ≡ b)
frame_key_same_iff a b = ground arith

instance abbrev pub frame_key_eq : Eq FrameKey
frame_key_eq = record { beq = frame_key_same; beq_iff = frame_key_same_iff }

pub record PendingFrame : Type 0 where
  pub key : FrameKey
  pub expected : List ℕ
  pub released : List ℕ
  pub deadline : ℕ

pub record Reclaim : Type 0 where
  pub key : FrameKey
  pub status : ReleaseStatus
  pub expected_count : ℕ
  pub observed_count : ℕ

pub record TrackerStats : Type 0 where
  pub registered_frames : ℕ
  pub reclaimed_frames : ℕ
  pub timeout_reclaims : ℕ
  pub disconnect_reclaims : ℕ
  pub duplicate_releases : ℕ
  pub unknown_releases : ℕ

pub record Tracker : Type 0 where
  pub release_timeout : ℕ
  pub pending : List (FrameKey × PendingFrame)
  pub stats : TrackerStats

unfoldable pub new_tracker : ℕ → Tracker
new_tracker release_timeout = record {
  release_timeout = release_timeout;
  pending = [];
  stats = record {
    registered_frames = 0;
    reclaimed_frames = 0;
    timeout_reclaims = 0;
    disconnect_reclaims = 0;
    duplicate_releases = 0;
    unknown_releases = 0;
  };
}

abbrev pub member : ℕ → List ℕ → Bool
member c [] = false
member c (x ∷ xs) = x == c || member c xs

-- unordered_set::insert, of one value and of a range.
abbrev pub insert : ℕ → List ℕ → List ℕ
insert c xs = if member c xs then xs else c ∷ xs

abbrev pub insert_all : List ℕ → List ℕ
insert_all [] = []
insert_all (c ∷ cs) = insert c (insert_all cs)

-- `emplace` keeps a frame that is there already.
abbrev pub register_new : Tracker → FrameKey → PendingFrame → Option PendingFrame → Tracker × Bool
register_new t key frame (some old) = (t, false)
register_new t key frame none = (
  record t {
    pending = store key frame t.pending;
    stats = record (t.stats) { registered_frames = u64 (t.stats.registered_frames + 1) };
  },
  true,
)

unfoldable pub register_frame : Tracker → ℕ → FrameKey → List ℕ → Tracker × Bool
register_frame t now key consumers =
    if is_empty consumers
    then (t, false)
    else register_new t key
        (record {
          key = key;
          expected = insert_all consumers;
          released = [];
          deadline = now + t.release_timeout;
        })
        (find key t.pending)

unfoldable pub make_reclaim : PendingFrame → ReleaseStatus → Reclaim
make_reclaim f status = record {
  key = f.key;
  status = status;
  expected_count = u32 (length f.expected);
  observed_count = u32 (length f.released);
}

abbrev pub count_unknown : Tracker → Tracker
count_unknown t = record t {
  stats = record (t.stats) { unknown_releases = u64 (t.stats.unknown_releases + 1) };
}

abbrev pub count_duplicate : Tracker → Tracker
count_duplicate t = record t {
  stats = record (t.stats) { duplicate_releases = u64 (t.stats.duplicate_releases + 1) };
}

-- The size test that tells that every expected consumer has released.
abbrev pub is_complete : PendingFrame → Bool
is_complete f = length f.released == length f.expected

-- `frame` with the consumer's release noted, in the table or taken out of it.
unfoldable pub settle : Tracker → FrameKey → PendingFrame → Tracker × List Reclaim
unfolding make_reclaim
settle t key f =
    if is_complete f
    then (
      record t {
        pending = erase key t.pending;
        stats = record (t.stats) { reclaimed_frames = u64 (t.stats.reclaimed_frames + 1) };
      },
      make_reclaim f ok ∷ [],
    )
    else (record t { pending = store key f t.pending }, [])

unfoldable pub mark_pending : Tracker → FrameKey → ℕ → Option PendingFrame → Tracker × List Reclaim
mark_pending t key consumer none = (count_unknown t, [])
mark_pending t key consumer (some f) =
    if not (member consumer f.expected)
    then (count_unknown t, [])
    else (if member consumer f.released
        then (count_duplicate t, [])
        else settle t key (record f { released = insert consumer f.released }))

abbrev pub key_in : ReleaseFrame → FrameKey
key_in r = record { stream_id = r.stream_id; frame_id = r.frame_id; buffer_id = r.buffer_id }

unfoldable pub mark_released : Tracker → ReleaseFrame → Tracker × List Reclaim
mark_released t r =
    if not (is_release_valid r)
    then (t, [])
    else mark_pending t (key_in r) r.consumer_id (find (key_in r) t.pending)

-- The loop of `ReclaimExpired`: what stays, and what is reclaimed.
unfoldable pub expire_from :
    ℕ → List (FrameKey × PendingFrame) → List (FrameKey × PendingFrame) × List Reclaim
expire_from now [] = ([], [])
expire_from now ((k, f) ∷ rest) =
    let (stay, gone) = expire_from now rest in
    if leb f.deadline now then (stay, make_reclaim f timeout ∷ gone) else ((k, f) ∷ stay, gone)

unfoldable pub reclaim_expired : Tracker → ℕ → Tracker × List Reclaim
reclaim_expired t now =
    let (stay, gone) = expire_from now t.pending in
    (
      record t {
        pending = stay;
        stats = record (t.stats) {
          reclaimed_frames = u64 (t.stats.reclaimed_frames + length gone);
          timeout_reclaims = u64 (t.stats.timeout_reclaims + length gone);
        };
      },
      gone,
    )

-- The frame after the consumer is gone.
abbrev pub without : ℕ → PendingFrame → PendingFrame
without c f = if member c f.expected then record f { released = insert c f.released } else f

unfoldable pub disconnect_from :
    ℕ → List (FrameKey × PendingFrame) → List (FrameKey × PendingFrame) × List Reclaim
disconnect_from c [] = ([], [])
disconnect_from c ((k, f) ∷ rest) =
    let (stay, gone) = disconnect_from c rest in
    if is_complete (without c f)
    then (stay, make_reclaim (without c f) failed ∷ gone)
    else ((k, without c f) ∷ stay, gone)

unfoldable pub reclaim_disconnected : Tracker → ℕ → Tracker × List Reclaim
reclaim_disconnected t consumer =
    let (stay, gone) = disconnect_from consumer t.pending in
    (
      record t {
        pending = stay;
        stats = record (t.stats) {
          reclaimed_frames = u64 (t.stats.reclaimed_frames + length gone);
          disconnect_reclaims = u64 (t.stats.disconnect_reclaims + length gone);
        };
      },
      gone,
    )

unfoldable pub pending_frame_count : Tracker → ℕ
pending_frame_count t = length t.pending
