-- ===== src/Ipc/Server/Closing.antt =====
-- The descriptors that Stop of CameraReleaseServer (src/ipc/camera_data_plane_v2.cpp) closes.
use camera_subsystem.Prelude.{
  ℕ, ◌+◌, ◌≤◌, ◌≡◌, refl, ap, true, false, Option, none, some, List, [], ◌∷◌, ◌++◌, arith, count,
  count-append, bytes_eq, nat_eq,
}
use camera_subsystem.Ipc.Server.{
  Server, emit, reclaim_consumer, reclaim_each, end_loop, end_all, closed_listener, stop_server,
}

-- The descriptors of the client loops that run.
abbrev pub loop_fds : List (ℕ × List ℕ) → List ℕ
loop_fds [] = []
loop_fds ((fd, seen) ∷ rest) = fd ∷ loop_fds rest

reclaim_each-closed : (s : Server) (cs : List ℕ) → (reclaim_each s cs).closed ≡ s.closed
unfolding reclaim_consumer emit
reclaim_each-closed s [] = refl
reclaim_each-closed s (c ∷ cs) = reclaim_each-closed (reclaim_consumer s c) cs

end_all-closed :
    (s : Server) (threads : List (ℕ × List ℕ)) (fd : ℕ)
    → count fd (end_all s threads).closed ≡ count fd s.closed + count fd (loop_fds threads)
unfolding end_loop
end_all-closed s [] fd = omega arith
end_all-closed s ((c, seen) ∷ rest) fd =
    ground (
      arith,
      end_all-closed (end_loop s c seen) rest fd,
      ap (count fd) (reclaim_each-closed s seen),
    )

-- Stop of a running server closes the descriptor of a client that is being served twice: once
-- itself, and once at the end of the client's loop.
pub stop_closes_twice :
    (s : Server) (fd : ℕ)
    → s.is_running ≡ true
    → count fd s.clients ≡ 1
    → count fd (loop_fds s.threads) ≡ 1
    → count fd s.closed + 2 ≤ count fd (stop_server s).closed
unfolding stop_server
stop_closes_twice s fd running client loop =
    let shut = record s {
      is_running = false;
      server_fd = none;
      clients = [];
      threads = [];
      closed = s.clients ++ closed_listener s.server_fd s.closed;
    } in
    let ends = end_all-closed shut s.threads fd in
    let first = count-append fd s.clients (closed_listener s.server_fd s.closed) in
    rw running (omega (arith, ends, first, client, loop, listener s.server_fd))
  where
    listener : (o : Option ℕ) → count fd s.closed ≤ count fd (closed_listener o s.closed)
    listener none = omega arith
    listener (some n) = omega arith
