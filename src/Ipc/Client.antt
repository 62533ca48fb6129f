-- ===== src/Ipc/Client.antt =====
-- src/ipc/camera_control_client.cpp, and its calls answered by the server of Ipc/Control. What the
-- sockets answer is an argument; the loops of ReadFull and WriteFull are those of Ipc/Transfer.
use camera_subsystem.Ipc.Contract.{subscriber, CameraEndpoint, make_default_camera_endpoint}
use camera_subsystem.Ipc.Control.{
  status_ok, invalid_message, invalid_role, core_publisher_unavailable, session_operation_failed,
  internal_error, ControlStatus, ControlRequest, ControlResponse, make_control_request,
  is_response_header_valid, command_subscribe, command_unsubscribe, command_ping, ControlServer,
  ClientSubscription, process_request, endpoint_in,
}
use camera_subsystem.Prelude.{
  ℕ, ◌≡◌, refl, sym, ap, ◌∙◌, ◌⊎◌, Bool, true, false, not, ◌&&◌, Option, none, some, List, [], ◌∷◌,
  arith, ◌==◌, if◌then◌else◌, Bytes, codes, c_str, is_empty, bytes_eq, nat_eq, find,
}
use camera_subsystem.Ipc.Transfer.{Answer, Progress, blocked, done, move_full}
use camera_subsystem.Ipc.Control.Records.{is_recorded, records_follow_requests}
use camera_subsystem.Session.{Outcome}

-- `closed` has the descriptors that the client closed, the last one first.
pub record ControlClient : Type 0 where
  pub socket_fd : Option ℕ
  pub socket_path : Bytes
  pub closed : List ℕ

-- The constructor.
unfoldable pub new_client : ControlClient
new_client = record { socket_fd = none; socket_path = []; closed = [] }

abbrev pub is_connected : ControlClient → Bool
is_connected c = elim c.socket_fd [ none ↦ false | some fd ↦ true ]

abbrev pub connected_to : ControlClient → Bytes → Bool → Option ℕ → ControlClient × Bool
connected_to c path accepts none = (c, false)
connected_to c path accepts (some fd) =
    if accepts
    then (record c { socket_fd = some fd; socket_path = path }, true)
    else (record c { closed = fd ∷ c.closed }, false)

-- Connect, with what `socket` and `connect` answer.
unfoldable pub connect : ControlClient → Bytes → Option ℕ → Bool → ControlClient × Bool
connect c path made accepts =
    if is_connected c
    then (c, true)
    else (if is_empty path then (c, false) else connected_to c path accepts made)

abbrev pub close_socket : Option ℕ → List ℕ → List ℕ
close_socket none log = log
close_socket (some fd) log = fd ∷ log

-- Disconnect, which the destructor calls too.
unfoldable pub disconnect : ControlClient → ControlClient
disconnect c = record c {
  socket_fd = none;
  socket_path = [];
  closed = close_socket c.socket_fd c.closed;
}

-- What the calls of a request meet: the kernel's answers to the writes and to the reads, the sizes
-- of the two messages, and the response that comes back for a request.
pub record Exchange : Type 0 where
  pub request_size : ℕ
  pub response_size : ℕ
  pub writes : List Answer
  pub reads : List Answer
  pub peer : ControlRequest → ControlResponse

abbrev pub is_moved : Progress → Bool
is_moved (done ok n) = ok
is_moved (blocked n) = false

abbrev pub is_ok : ControlStatus → Bool
is_ok status_ok = true
is_ok _ = false

abbrev pub is_accepted : ControlResponse → Bool
is_accepted r = is_response_header_valid r && is_ok r.status

-- SendRequest: the response that the caller gets, and the result.
unfoldable pub send_request :
    ControlClient → Exchange → ControlRequest → Option ControlResponse × Bool
send_request c x r =
    if not (is_connected c)
    then (none, false)
    else (if not (is_moved (move_full x.request_size 0 x.writes))
        then (none, false)
        else (if not (is_moved (move_full x.response_size 0 x.reads))
            then (none, false)
            else (some (x.peer r), is_accepted (x.peer r))))

-- Subscribe, Unsubscribe and Ping.
unfoldable pub subscribe_call :
    ControlClient → Exchange → Bytes → ℕ → CameraEndpoint → Option ControlResponse × Bool
subscribe_call c x client_id role endpoint =
    send_request c x (make_control_request command_subscribe role endpoint client_id)

unfoldable pub unsubscribe_call :
    ControlClient → Exchange → Bytes → ℕ → CameraEndpoint → Option ControlResponse × Bool
unsubscribe_call c x client_id role endpoint =
    send_request c x (make_control_request command_unsubscribe role endpoint client_id)

unfoldable pub ping_call : ControlClient → Exchange → Option ControlResponse × Bool
ping_call c x = send_request c x (
    make_control_request command_ping subscriber (make_default_camera_endpoint 0)
      (codes "ping_client"))

is_ok-status_ok : (st : ControlStatus) → is_ok st ≡ true → st ≡ status_ok
is_ok-status_ok status_ok h = refl
is_ok-status_ok invalid_message h = absurd (ground (arith, h))
is_ok-status_ok invalid_role h = absurd (ground (arith, h))
is_ok-status_ok core_publisher_unavailable h = absurd (ground (arith, h))
is_ok-status_ok session_operation_failed h = absurd (ground (arith, h))
is_ok-status_ok internal_error h = absurd (ground (arith, h))

-- A request of a client that the control server answers over a connection that it knows: when the
-- call returns true, the server has recorded the subscription, or forgotten it, as was asked.
pub call_followed :
    (c : ControlClient) (x : Exchange) (s : ControlServer) (fd : ℕ)
    (items : List ClientSubscription) (r : ControlRequest) (o : Outcome)
    → find fd s.client_subscriptions ≡ some items
    → x.peer r ≡ (process_request s fd r o).1
    → (r.command ≡ command_subscribe) ⊎ (r.command ≡ command_unsubscribe)
    → (send_request c x r).1 ≡ true
    → is_recorded (process_request s fd r o).0 fd (c_str r.client_id) (endpoint_in r)
      ≡ (r.command == command_subscribe)
unfolding send_request
call_followed c x s fd items r o known wired asked h =
    let accepted : is_accepted (x.peer r) ≡ true = ground (arith, h) in
    let okay =
      sym (ap (λ (p : ControlResponse). p.status) wired)
      ∙ is_ok-status_ok (x.peer r).status (ground (arith, accepted)) in
    records_follow_requests s fd items r o known okay asked
