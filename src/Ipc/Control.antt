-- ===== src/Ipc/Control.antt =====
-- src/ipc/camera_control_server.cpp and include/camera_subsystem/ipc/camera_control_ipc.h: the
-- control messages and what the server does for one connection. A request that the server reads
-- from a connection is one step; the sockets and threads are outside.
pub mod Cleanup
pub mod Records
use camera_subsystem.Prelude.{
  ℕ, zero, suc, ◌+◌, ◌-◌, ◌*◌, ◌/◌, ◌%◌, ◌^◌, ◌≤◌, ◌<◌, min, max, ◌≡◌, refl, sym, ap, subst, ◌∙◌,
  ◌≢◌, ◌↔◌, ◌⊎◌, inl, inr, Bool, true, false, not, ◌&&◌, ◌||◌, Option, none, some, List, [], ◌∷◌,
  ◌++◌, map, arith, dec_lt, ℕ_discrete, ltb, leb, ◌==◌, if◌then◌else◌, ==_iff, Bool-cases,
  Option-cases, length, get_elem?, set, tally, keep, length-append, length-set, get_elem?-set,
  get_elem?-lt, tally-append, tally-set, tally-le-length, count, count-append, tally_pos,
  get_elem?-snoc, tally_two, tally-eq-zero, Bytes, codes, c_str, padded, is_empty, bytes_same,
  bytes_same_iff, bytes_eq, nat_eq, Eq, ◌=?◌, find, store, erase, find-store, find-erase, IsUnique,
  store-IsUnique, erase-IsUnique, erase_absent, among, weight, among-store, among-erase,
  weight-le-among, among-le-length, length-store-le, length-erase-le, length-store_new,
  length-store_old, length-erase_old, find-store-store, find-erase-store, Every, Every-find,
  Every-store, Every-erase,
}
use camera_subsystem.Ipc.Contract.{CameraEndpoint, core_publisher, device_path_max}
use camera_subsystem.Session.{
  Manager, Outcome, subscribe, unsubscribe, is_core_publisher_registered, get_subscriber_count,
}

abbrev pub control_magic : ℕ
control_magic = 0x434D4950

abbrev pub control_version : ℕ
control_version = 1

abbrev pub client_id_max : ℕ
client_id_max = 64

abbrev pub message_text_max : ℕ
message_text_max = 128

-- CameraControlCommand travels as its code, and a message can carry any.
abbrev pub command_subscribe : ℕ
command_subscribe = 1

abbrev pub command_unsubscribe : ℕ
command_unsubscribe = 2

abbrev pub command_ping : ℕ
command_ping = 3

pub data ControlStatus : Type 0 where
  status_ok invalid_message invalid_role core_publisher_unavailable : ControlStatus
  session_operation_failed internal_error : ControlStatus

pub record ControlRequest : Type 0 where
  pub magic : ℕ
  pub version : ℕ
  pub command : ℕ
  pub role : ℕ
  pub endpoint : CameraEndpoint
  pub client_id : Bytes

pub record ControlResponse : Type 0 where
  pub magic : ℕ
  pub version : ℕ
  pub status : ControlStatus
  pub active_subscriber_count : ℕ
  pub message : Bytes

unfoldable pub make_control_request : ℕ → ℕ → CameraEndpoint → Bytes → ControlRequest
make_control_request command role endpoint client_id = record {
  magic = control_magic;
  version = control_version;
  command = command;
  role = role;
  endpoint = endpoint;
  client_id = padded client_id_max client_id;
}

unfoldable pub make_control_response : ControlStatus → ℕ → Bytes → ControlResponse
make_control_response status active_subscriber_count message = record {
  magic = control_magic;
  version = control_version;
  status = status;
  active_subscriber_count = active_subscriber_count;
  message = padded message_text_max message;
}

unfoldable pub is_request_header_valid : ControlRequest → Bool
is_request_header_valid r = r.magic == control_magic && r.version == control_version

unfoldable pub is_response_header_valid : ControlResponse → Bool
is_response_header_valid r = r.magic == control_magic && r.version == control_version

pub record ClientSubscription : Type 0 where
  pub client_id : Bytes
  pub endpoint : CameraEndpoint

-- The connections by their file descriptors, and the session manager, which may be null.
pub record ControlServer : Type 0 where
  pub client_subscriptions : List (ℕ × List ClientSubscription)
  pub session_manager : Option Manager

-- `strncmp` over the whole array compares the strings before the first NUL.
unfoldable pub endpoint_equals : CameraEndpoint → CameraEndpoint → Bool
endpoint_equals a b =
    a.camera_id == b.camera_id
    && a.bus_type == b.bus_type
    && a.bus_index == b.bus_index
    && bytes_same (c_str a.device_path) (c_str b.device_path)

abbrev pub is_for : Bytes → CameraEndpoint → ClientSubscription → Bool
is_for client endpoint item =
    bytes_same item.client_id client && endpoint_equals item.endpoint endpoint

abbrev pub any_for : Bytes → CameraEndpoint → List ClientSubscription → Bool
any_for client endpoint [] = false
any_for client endpoint (item ∷ items) =
    is_for client endpoint item || any_for client endpoint items

abbrev pub add_to :
    ControlServer → ℕ → Bytes → CameraEndpoint → Option (List ClientSubscription) → ControlServer
add_to s fd client endpoint none = s
add_to s fd client endpoint (some items) = if any_for client endpoint items then s else record s {
  client_subscriptions =
      store fd (items ++ record { client_id = client; endpoint = endpoint } ∷ [])
        s.client_subscriptions;
}

unfoldable pub add_client_subscription : ControlServer → ℕ → Bytes → CameraEndpoint → ControlServer
add_client_subscription s fd client endpoint =
    add_to s fd client endpoint (find fd s.client_subscriptions)

abbrev pub remove_from :
    ControlServer → ℕ → Bytes → CameraEndpoint → Option (List ClientSubscription) → ControlServer
remove_from s fd client endpoint none = s
remove_from s fd client endpoint (some items) = record s {
  client_subscriptions =
      store fd (keep (λ item. not (is_for client endpoint item)) items) s.client_subscriptions;
}

unfoldable pub remove_client_subscription :
    ControlServer → ℕ → Bytes → CameraEndpoint → ControlServer
remove_client_subscription s fd client endpoint =
    remove_from s fd client endpoint (find fd s.client_subscriptions)

abbrev pub ends_nul : Bytes → Bool
ends_nul client_id = elim (get_elem? client_id (client_id_max - 1)) [
  | none ↦ false
  | some b ↦ b == 0
]

abbrev pub reply : ControlStatus → Bytes → ControlResponse
reply status message = make_control_response status 0 message

-- The answer after a session operation, with its result.
abbrev pub answer : Manager → CameraEndpoint → Bool → ControlResponse
answer m endpoint true =
    make_control_response status_ok (get_subscriber_count m endpoint) (codes "ok")
answer m endpoint false = reply session_operation_failed (codes "session operation failed")

abbrev pub do_subscribe :
    ControlServer → ℕ → Bytes → CameraEndpoint → Manager × Bool → ControlServer × ControlResponse
do_subscribe s fd client endpoint (m, okay) =
    let after = record s { session_manager = some m } in
    (
      if okay then add_client_subscription after fd client endpoint else after,
      answer m endpoint okay,
    )

abbrev pub do_unsubscribe :
    ControlServer → ℕ → Bytes → CameraEndpoint → Manager × Bool → ControlServer × ControlResponse
do_unsubscribe s fd client endpoint (m, okay) =
    let after = record s { session_manager = some m } in
    (
      if okay then remove_client_subscription after fd client endpoint else after,
      answer m endpoint okay,
    )

-- The request's endpoint with the last byte of its path cleared.
abbrev pub endpoint_in : ControlRequest → CameraEndpoint
endpoint_in r = record (r.endpoint) {
  device_path = set r.endpoint.device_path (device_path_max - 1) 0;
}

-- The commands on a session manager with a publisher; `o` is what its start callback does.
unfoldable pub dispatch :
    ControlServer → Manager → ℕ → ControlRequest → Outcome → ControlServer × ControlResponse
dispatch s m fd r o =
    if r.command == command_subscribe
    then do_subscribe s fd (c_str r.client_id) (endpoint_in r)
        (subscribe m (c_str r.client_id) r.role (endpoint_in r) o)
    else (if r.command == command_unsubscribe
        then do_unsubscribe s fd (c_str r.client_id) (endpoint_in r)
            (unsubscribe m (c_str r.client_id) (endpoint_in r))
        else (s, reply invalid_message (codes "unsupported command")))

-- The part of a request that needs the session manager and its publisher.
abbrev pub with_manager :
    ControlServer → Option Manager → ℕ → ControlRequest → Outcome → ControlServer × ControlResponse
with_manager s none fd r o =
    (s, reply core_publisher_unavailable (codes "core publisher is unavailable"))
with_manager s (some m) fd r o =
    if not (is_core_publisher_registered m)
    then (s, reply core_publisher_unavailable (codes "core publisher is unavailable"))
    else dispatch s m fd r o

unfoldable pub process_request :
    ControlServer → ℕ → ControlRequest → Outcome → ControlServer × ControlResponse
process_request s fd r o =
    if not (is_request_header_valid r)
    then (s, reply invalid_message (codes "invalid request header"))
    else (if not (ends_nul r.client_id)
        then (s, reply invalid_message (codes "client_id is not null terminated"))
        else (if r.command == command_ping
            then (s, reply status_ok (codes "pong"))
            else (if r.role == core_publisher
                then (
                  s,
                  reply invalid_role (codes "core publisher role is not allowed in control client"),
                )
                else with_manager s s.session_manager fd r o)))

-- AcceptLoop, for a new connection.
unfoldable pub accept_client : ControlServer → ℕ → ControlServer
accept_client s fd = record s { client_subscriptions = store fd [] s.client_subscriptions }

abbrev pub unsubscribe_each : Manager → List ClientSubscription → Manager
unsubscribe_each m [] = m
unsubscribe_each m (item ∷ items) =
    unsubscribe_each (unsubscribe m item.client_id item.endpoint).0 items

abbrev pub cleanup_items :
    ControlServer → Option Manager → Option (List ClientSubscription) → ControlServer
cleanup_items s none items = s
cleanup_items s (some m) none = s
cleanup_items s (some m) (some items) = record s {
  session_manager = some (unsubscribe_each m items);
}

unfoldable pub cleanup_client_subscriptions : ControlServer → ℕ → ControlServer
cleanup_client_subscriptions s fd =
    cleanup_items s s.session_manager (find fd s.client_subscriptions)

-- The end of ClientLoop.
unfoldable pub end_client : ControlServer → ℕ → ControlServer
unfolding cleanup_client_subscriptions
end_client s fd =
    let cleaned = cleanup_client_subscriptions s fd in
    record cleaned { client_subscriptions = erase fd cleaned.client_subscriptions }
