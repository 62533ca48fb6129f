-- ===== src/Ipc/Server/Conservation.antt =====
-- CameraReleaseServer of src/ipc/camera_data_plane_v2.cpp refines the histories of its tracker: what
-- the callback is told is what the tracker gives back.
use camera_subsystem.Prelude.{
  ℕ, ◌+◌, ◌≡◌, refl, sym, ap, subst, ◌∙◌, inl, inr, Bool, true, false, ◌&&◌, ◌||◌, Option, none,
  some, List, [], ◌∷◌, ◌++◌, map, arith, leb, Bool-cases, length, Bytes, is_empty, bytes_eq, nat_eq,
  find, erase,
}
use camera_subsystem.Ipc.Release.{
  ReleaseFrame, is_release_valid, FrameKey, Reclaim, Tracker, mark_released, reclaim_expired,
  reclaim_disconnected,
}
use camera_subsystem.Ipc.Release.Ledger.{
  Event, registers, releases, expires, disconnects, Ledger, new_ledger, hand_back, step, run, held,
  reclaimed, entered, reclaimed_once,
}
use camera_subsystem.Ipc.Server.{
  Server, new_server, start_server, emit, emitted, server_register, reclaim_consumer, accept_client,
  serve, serve_client, reclaim_each, end_loop, end_found, end_client, expire, end_all,
  closed_listener, stop_server, socket_path_max,
}

-- What happens to a server that was started.
pub data Call : Type 0 where
  frames : ℕ → FrameKey → List ℕ → Call
  drops leaves connects sweeps : ℕ → Call
  sends : ℕ → ReleaseFrame → Call
  stops : Call

abbrev pub answer : Server → Call → Server
answer s (frames now key consumers) = (server_register s now key consumers).0
answer s (drops consumer) = reclaim_consumer s consumer
answer s (leaves fd) = end_client s fd
answer s (connects fd) = accept_client s fd
answer s (sweeps now) = expire s now
answer s (sends fd message) = serve_client s fd message
answer s stops = stop_server s

abbrev pub answer_all : Server → List Call → Server
answer_all s [] = s
answer_all s (c ∷ cs) = answer_all (answer s c) cs

-- The tracker's history behind a server: the reclaims are the calls of the callback.
abbrev pub ledger : Server → Ledger
ledger s = record { tracker = s.tracker; accepted = s.accepted; reclaims = s.calls }

-- The server does what its tracker's history `es` does, and keeps its callback.
record Does (s t : Server) (es : List Event) : Type 0 where
  same : ledger t ≡ run (ledger s) es
  callback : t.has_callback ≡ true

run-append : (l : Ledger) (front back : List Event) → run l (front ++ back) ≡ run (run l front) back
run-append l [] back = refl
run-append l (e ∷ es) back = run-append (step l e) es back

chain_histories :
    {s t u : Server} (front back : List Event)
    → Does s t front
    → Does t u back
    → Does s u (front ++ back)
chain_histories {s} {t} {u} front back a b = record {
  same = b.same ∙ ap (λ l. run l back) a.same ∙ sym (run-append (ledger s) front back);
  callback = b.callback;
}

emitted-same :
    (s : Server) (out : Tracker × List Reclaim)
    → s.has_callback ≡ true
    → ledger (emitted s out) ≡ hand_back (ledger s) out
unfolding emit
emitted-same s (t, gone) e = rw e refl

reclaim_each-Does :
    (s : Server) (cs : List ℕ)
    → s.has_callback ≡ true
    → Does s (reclaim_each s cs) (map disconnects cs)
unfolding reclaim_consumer emit
reclaim_each-Does s [] e = record { same = refl; callback = e }
reclaim_each-Does s (c ∷ cs) e =
    chain_histories (disconnects c ∷ []) (map disconnects cs)
      (record { same = emitted-same s (reclaim_disconnected s.tracker c) e; callback = e })
      (reclaim_each-Does (reclaim_consumer s c) cs e)

end_loop-Does :
    (s : Server) (fd : ℕ) (seen : List ℕ)
    → s.has_callback ≡ true
    → Does s (end_loop s fd seen) (map disconnects seen)
unfolding end_loop
end_loop-Does s fd seen e =
    let d = reclaim_each-Does s seen e in record { same = d.same; callback = d.callback }

abbrev seen_all : List (ℕ × List ℕ) → List Event
seen_all [] = []
seen_all ((fd, seen) ∷ rest) = map disconnects seen ++ seen_all rest

end_all-Does :
    (s : Server) (threads : List (ℕ × List ℕ))
    → s.has_callback ≡ true
    → Does s (end_all s threads) (seen_all threads)
end_all-Does s [] e = record { same = refl; callback = e }
end_all-Does s ((fd, seen) ∷ rest) e =
    let first = end_loop-Does s fd seen e in
    chain_histories (map disconnects seen) (seen_all rest) first
      (end_all-Does (end_loop s fd seen) rest first.callback)

-- Some history of the tracker that the server does.
abbrev DoesSome : Server → Server → Type 0
DoesSome s t = (es : List Event) × Does s t es

serve-DoesSome :
    (s : Server) (fd : ℕ) (message : ReleaseFrame) (o : Option (List ℕ))
    → s.has_callback ≡ true
    → DoesSome s (serve s fd message o)
unfolding emit
serve-DoesSome s fd message none e = ([], record { same = refl; callback = e })
serve-DoesSome s fd message (some seen) e = elim (Bool-cases (is_release_valid message)) [
  | inl fine ↦ rw fine (
    releases message ∷ [],
    record { same = emitted-same s (mark_released s.tracker message) e; callback = e },
  )
  | inr bad ↦ rw bad ([], record { same = refl; callback = e })
]

end_found-DoesSome :
    (s : Server) (fd : ℕ) (o : Option (List ℕ))
    → s.has_callback ≡ true
    → DoesSome s (end_found s fd o)
end_found-DoesSome s fd none e = ([], record { same = refl; callback = e })
end_found-DoesSome s fd (some seen) e =
    let d = end_loop-Does (record s { threads = erase fd s.threads }) fd seen e in
    (map disconnects seen, record { same = d.same; callback = d.callback })

stop_server-DoesSome : (s : Server) → s.has_callback ≡ true → DoesSome s (stop_server s)
unfolding stop_server
stop_server-DoesSome s e = elim (Bool-cases s.is_running) [
  | inr off ↦ rw off ([], record { same = refl; callback = e })
  | inl on ↦
      let shut = record s {
        is_running = false;
        server_fd = none;
        clients = [];
        threads = [];
        closed = s.clients ++ closed_listener s.server_fd s.closed;
      } in
      let d = end_all-Does shut s.threads e in
      rw on (seen_all s.threads, record { same = d.same; callback = d.callback })
]

answer-DoesSome : (s : Server) (c : Call) → s.has_callback ≡ true → DoesSome s (answer s c)
unfolding server_register reclaim_consumer accept_client serve_client end_client expire emit
answer-DoesSome s (frames now key consumers) e =
    (registers now key consumers ∷ [], record { same = refl; callback = e })
answer-DoesSome s (drops consumer) e = (
  disconnects consumer ∷ [],
  record { same = emitted-same s (reclaim_disconnected s.tracker consumer) e; callback = e },
)
answer-DoesSome s (leaves fd) e = end_found-DoesSome s fd (find fd s.threads) e
answer-DoesSome s (connects fd) e = ([], record { same = refl; callback = e })
answer-DoesSome s (sweeps now) e = (
  expires now ∷ [],
  record { same = emitted-same s (reclaim_expired s.tracker now) e; callback = e },
)
answer-DoesSome s (sends fd message) e = serve-DoesSome s fd message (find fd s.threads) e
answer-DoesSome s stops e = stop_server-DoesSome s e

answer_all-DoesSome :
    (s : Server) (cs : List Call) → s.has_callback ≡ true → DoesSome s (answer_all s cs)
answer_all-DoesSome s [] e = ([], record { same = refl; callback = e })
answer_all-DoesSome s (c ∷ cs) e =
    let (front, a) = answer-DoesSome s c e in
    let (back, b) = answer_all-DoesSome (answer s c) cs a.callback in
    (front ++ back, chain_histories front back a b)

start_server-ready :
    (release_timeout fd : ℕ) (path : Bytes) (binds listens : Bool)
    → (start_server (new_server release_timeout) path true (some fd) binds listens).1 ≡ true
    → let s = (start_server (new_server release_timeout) path true (some fd) binds listens).0 in
      (s.has_callback ≡ true) × (ledger s ≡ new_ledger release_timeout)
unfolding start_server new_server
start_server-ready release_timeout fd path binds listens h =
    elim (Bool-cases (is_empty path || leb socket_path_max (length path))) [
      | inl bad ↦ absurd (ground (arith, h, bad))
      | inr fine ↦ elim (Bool-cases (binds && listens)) [
        | inl ok ↦ rw (fine, ok) (refl, refl)
        | inr bad ↦ absurd (ground (arith, h, fine, bad))
      ]
    ]

-- Once a server with a callback has started, then through any frames, messages of clients, ends of
-- clients, sweeps and stops, each frame that was registered is told to the callback once or is
-- still waiting.
pub callback_told_once :
    (release_timeout fd : ℕ) (path : Bytes) (binds listens : Bool) (cs : List Call) (k : FrameKey)
    → (start_server (new_server release_timeout) path true (some fd) binds listens).1 ≡ true
    → let s = (start_server (new_server release_timeout) path true (some fd) binds listens).0 in
      let t = answer_all s cs in entered k t.accepted ≡ reclaimed k t.calls + held k t.tracker
callback_told_once release_timeout fd path binds listens cs k h =
    let (called, fresh) = start_server-ready release_timeout fd path binds listens h in
    let s = (start_server (new_server release_timeout) path true (some fd) binds listens).0 in
    let (es, d) = answer_all-DoesSome s cs called in
    let same : ledger (answer_all s cs) ≡ run (new_ledger release_timeout) es =
      d.same ∙ ap (λ l. run l es) fresh in
    subst (λ l. entered k l.accepted ≡ reclaimed k l.reclaims + held k l.tracker) (sym same)
      (reclaimed_once release_timeout es k)
