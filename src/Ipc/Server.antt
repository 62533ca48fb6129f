-- ===== src/Ipc/Server.antt =====
-- CameraReleaseServer of src/ipc/camera_data_plane_v2.cpp, over the tracker of Ipc/Release. The
-- answers of the sockets and the clock are arguments. A turn of a loop is one step: the callback
-- runs after the tracker's lock is left, and other turns may come between, which reorders calls of
-- it and changes nothing else.
pub mod Conservation
pub mod Closing
use camera_subsystem.Prelude.{
  ℕ, zero, suc, ◌+◌, ◌-◌, ◌*◌, ◌/◌, ◌%◌, ◌^◌, ◌≤◌, ◌<◌, min, max, ◌≡◌, refl, sym, ap, subst, ◌∙◌,
  ◌≢◌, ◌↔◌, ◌⊎◌, inl, inr, Bool, true, false, not, ◌&&◌, ◌||◌, Option, none, some, List, [], ◌∷◌,
  ◌++◌, map, arith, dec_lt, ℕ_discrete, ltb, leb, ◌==◌, if◌then◌else◌, ==_iff, Bool-cases,
  Option-cases, length, get_elem?, set, tally, keep, length-append, length-set, get_elem?-set,
  get_elem?-lt, tally-append, tally-set, tally-le-length, count, count-append, tally_pos,
  get_elem?-snoc, tally_two, tally-eq-zero, Bytes, codes, c_str, padded, is_empty, bytes_same,
  bytes_same_iff, bytes_eq, nat_eq, Eq, ◌=?◌, find, store, erase, find-store, find-erase, IsUnique,
  store-IsUnique, erase-IsUnique, erase_absent, among, weight, among-store, among-erase,
  weight-le-among, among-le-length, length-store-le, length-erase-le, length-store_new,
  length-store_old, length-erase_old, find-store-store, find-erase-store, Every, Every-find,
  Every-store, Every-erase,
}
use camera_subsystem.Core.Words.{u64}
use camera_subsystem.Ipc.Release.{
  ReleaseStatus, timeout, ReleaseFrame, is_release_valid, FrameKey, Reclaim, Tracker, new_tracker,
  insert, register_frame, mark_released, reclaim_expired, reclaim_disconnected, pending_frame_count,
}

pub record ServerStats : Type 0 where
  pub accepted_clients : ℕ
  pub received_releases : ℕ
  pub invalid_releases : ℕ
  pub reclaimed_frames : ℕ
  pub expired_reclaims : ℕ

-- `clients` is `client_fds_`, and `threads` has the ClientLoops that run, each with the consumers
-- it has seen. Recorded besides: the registrations accepted, the calls of the callback (the
-- latest batch first), and the descriptors closed (the last one first).
pub record Server : Type 0 where
  pub tracker : Tracker
  pub has_callback : Bool
  pub server_fd : Option ℕ
  pub socket_path : Bytes
  pub is_running : Bool
  pub clients : List ℕ
  pub threads : List (ℕ × List ℕ)
  pub stats : ServerStats
  pub accepted : List FrameKey
  pub calls : List Reclaim
  pub closed : List ℕ

-- The constructor.
unfoldable pub new_server : ℕ → Server
new_server release_timeout = record {
  tracker = new_tracker release_timeout;
  has_callback = false;
  server_fd = none;
  socket_path = [];
  is_running = false;
  clients = [];
  threads = [];
  stats = record {
    accepted_clients = 0;
    received_releases = 0;
    invalid_releases = 0;
    reclaimed_frames = 0;
    expired_reclaims = 0;
  };
  accepted = [];
  calls = [];
  closed = [];
}

-- sizeof(sockaddr_un::sun_path) on Linux.
abbrev pub socket_path_max : ℕ
socket_path_max = 108

abbrev pub bound : Server → Bytes → Bool → Bool → Bool → Option ℕ → Server × Bool
bound s path callback binds listens none = (s, false)
bound s path callback binds listens (some fd) =
    if not (binds && listens) then (record s { closed = fd ∷ s.closed }, false) else (
      record s {
        server_fd = some fd;
        socket_path = path;
        has_callback = callback;
        is_running = true;
      },
      true,
    )

-- Start, with what `socket`, `bind` and `listen` answer.
unfoldable pub start_server : Server → Bytes → Bool → Option ℕ → Bool → Bool → Server × Bool
start_server s path callback made binds listens =
    if s.is_running
    then (s, true)
    else (if is_empty path || leb socket_path_max (length path)
        then (s, false)
        else bound s path callback binds listens made)

abbrev pub is_timeout : Reclaim → Bool
is_timeout r = elim r.status [ timeout ↦ true | _ ↦ false ]

-- EmitReclaims; for no reclaims nothing changes.
unfoldable pub emit : Server → List Reclaim → Server
emit s gone = record s {
  stats = record (s.stats) {
    reclaimed_frames =
        if is_empty gone
        then s.stats.reclaimed_frames
        else u64 (s.stats.reclaimed_frames + length gone);
    expired_reclaims =
        if is_empty gone
        then s.stats.expired_reclaims
        else u64 (s.stats.expired_reclaims + tally is_timeout gone);
  };
  calls = if s.has_callback then gone ++ s.calls else s.calls;
}

abbrev pub emitted : Server → Tracker × List Reclaim → Server
emitted s (t, gone) = emit (record s { tracker = t }) gone

unfoldable pub server_register : Server → ℕ → FrameKey → List ℕ → Server × Bool
server_register s now key consumers =
    let (t, okay) = register_frame s.tracker now key consumers in
    (record s { tracker = t; accepted = if okay then key ∷ s.accepted else s.accepted }, okay)

unfoldable pub reclaim_consumer : Server → ℕ → Server
reclaim_consumer s consumer = emitted s (reclaim_disconnected s.tracker consumer)

-- A turn of AcceptLoop that gets a client.
unfoldable pub accept_client : Server → ℕ → Server
accept_client s fd = record s {
  clients = insert fd s.clients;
  threads = store fd [] s.threads;
  stats = record (s.stats) { accepted_clients = u64 (s.stats.accepted_clients + 1) };
}

abbrev pub serve : Server → ℕ → ReleaseFrame → Option (List ℕ) → Server
serve s fd message none = s
serve s fd message (some seen) =
    if not (is_release_valid message)
    then record s {
      stats = record (s.stats) { invalid_releases = u64 (s.stats.invalid_releases + 1) };
    }
    else emitted
        (record s {
          threads = store fd (insert message.consumer_id seen) s.threads;
          stats = record (s.stats) { received_releases = u64 (s.stats.received_releases + 1) };
        })
        (mark_released s.tracker message)

-- A turn of ClientLoop that reads a whole message.
unfoldable pub serve_client : Server → ℕ → ReleaseFrame → Server
serve_client s fd message = serve s fd message (find fd s.threads)

abbrev pub reclaim_each : Server → List ℕ → Server
reclaim_each s [] = s
reclaim_each s (c ∷ cs) = reclaim_each (reclaim_consumer s c) cs

-- ClientLoop from the end of its loop on.
unfoldable pub end_loop : Server → ℕ → List ℕ → Server
end_loop s fd seen =
    let left = reclaim_each s seen in
    record left { clients = keep (λ c. not (c == fd)) left.clients; closed = fd ∷ left.closed }

abbrev pub end_found : Server → ℕ → Option (List ℕ) → Server
end_found s fd none = s
end_found s fd (some seen) = end_loop (record s { threads = erase fd s.threads }) fd seen

unfoldable pub end_client : Server → ℕ → Server
end_client s fd = end_found s fd (find fd s.threads)

-- A turn of ExpireLoop.
unfoldable pub expire : Server → ℕ → Server
expire s now = emitted s (reclaim_expired s.tracker now)

abbrev pub end_all : Server → List (ℕ × List ℕ) → Server
end_all s [] = s
end_all s ((fd, seen) ∷ rest) = end_all (end_loop s fd seen) rest

abbrev pub closed_listener : Option ℕ → List ℕ → List ℕ
closed_listener none log = log
closed_listener (some fd) log = fd ∷ log

-- Stop: the listener and the clients are closed, and every ClientLoop is joined, that is, ends.
unfoldable pub stop_server : Server → Server
stop_server s =
    if not s.is_running
    then s
    else record (end_all
        (record s {
          is_running = false;
          server_fd = none;
          clients = [];
          threads = [];
          closed = s.clients ++ closed_listener s.server_fd s.closed;
        })
        s.threads) { socket_path = [] }

unfoldable pub server_pending_count : Server → ℕ
server_pending_count s = pending_frame_count s.tracker
