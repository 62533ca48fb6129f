-- ===== src/Session.antt =====
-- src/camera/camera_session_manager.cpp with its header. A public method holds `mutex_` and is one
-- step. What a callback of the owner does is an argument of the step, and every call is recorded.
pub mod Accounts
pub mod Consistency
pub mod Histories
pub mod Membership
pub mod Callbacks
use camera_subsystem.Prelude.{
  ℕ, ◌+◌, ◌-◌, ◌≡◌, ◌↔◌, Bool, true, false, not, ◌&&◌, ◌||◌, Option, none, some, List, [], ◌∷◌,
  ◌++◌, map, arith, ltb, ◌==◌, if◌then◌else◌, length, set, Bytes, is_empty, c_str, Eq, find, store,
  erase, nat_eq, bytes_eq, bytes_same, bytes_same_iff,
}
use camera_subsystem.Core.Words.{u32}
use camera_subsystem.Ipc.Contract.{
  CameraEndpoint, sub_publisher, subscriber, device_path_max, default_camera, make_camera_endpoint,
  starts_nul,
}

pub record EndpointKey : Type 0 where
  pub camera_id : ℕ
  pub bus_type : ℕ
  pub bus_index : ℕ
  pub device_path : Bytes

-- `operator==`.
abbrev pub key_same : EndpointKey → EndpointKey → Bool
key_same a b =
    a.camera_id == b.camera_id
    && a.bus_type == b.bus_type
    && a.bus_index == b.bus_index
    && bytes_same a.device_path b.device_path

pub key_same_iff : (a b : EndpointKey) → (key_same a b ≡ true) ↔ (a ≡ b)
key_same_iff a b = ground (arith, bytes_same_iff a.device_path b.device_path)

instance abbrev pub key_eq : Eq EndpointKey
key_eq = record { beq = key_same; beq_iff = key_same_iff }

pub record SessionRecord : Type 0 where
  pub endpoint : CameraEndpoint
  pub members : List (Bytes × ℕ)
  pub sub_publisher_count : ℕ
  pub subscriber_count : ℕ
  pub is_streaming : Bool

-- A call of the start callback, with its result, or of the stop callback.
pub data CallbackCall : Type 0 where
  start_called : CameraEndpoint → Bool → CallbackCall
  stop_called : CameraEndpoint → CallbackCall

-- What the start callback does when it is called.
pub data Outcome : Type 0 where
  returns : Bool → Outcome
  throws : Outcome

pub record Manager : Type 0 where
  pub core_publisher_id : Bytes
  pub has_start : Bool
  pub has_stop : Bool
  pub sessions : List (EndpointKey × SessionRecord)
  pub calls : List CallbackCall

unfoldable pub new_manager : Bool → Bool → Manager
new_manager has_start has_stop = record {
  core_publisher_id = [];
  has_start = has_start;
  has_stop = has_stop;
  sessions = [];
  calls = [];
}

unfoldable pub register_core_publisher : Manager → Bytes → Manager × Bool
register_core_publisher m id =
    if is_empty id
    then (m, false)
    else (if is_empty m.core_publisher_id
        then (record m { core_publisher_id = id }, true)
        else (m, bytes_same m.core_publisher_id id))

unfoldable pub unregister_core_publisher : Manager → Bytes → Manager × Bool
unregister_core_publisher m id =
    if is_empty m.core_publisher_id || not (bytes_same m.core_publisher_id id)
    then (m, false)
    else (if not (is_empty m.sessions)
        then (m, false)
        else (record m { core_publisher_id = [] }, true))

unfoldable pub is_core_publisher_registered : Manager → Bool
is_core_publisher_registered m = not (is_empty m.core_publisher_id)

unfoldable pub normalize_endpoint : CameraEndpoint → CameraEndpoint
unfolding make_camera_endpoint
normalize_endpoint e =
    let normalized = record e { device_path = set e.device_path (device_path_max - 1) 0 } in
    if starts_nul normalized.device_path
    then make_camera_endpoint e.camera_id e.bus_type e.bus_index default_camera
    else normalized

unfoldable pub build_endpoint_key : CameraEndpoint → EndpointKey
build_endpoint_key e = record {
  camera_id = e.camera_id;
  bus_type = e.bus_type;
  bus_index = e.bus_index;
  device_path = c_str e.device_path;
}

abbrev pub key_of : CameraEndpoint → EndpointKey
key_of e = build_endpoint_key (normalize_endpoint e)

unfoldable pub is_role_subscribable : ℕ → Bool
is_role_subscribable role = role == sub_publisher || role == subscriber

unfoldable pub increment_role_count : SessionRecord → ℕ → SessionRecord
increment_role_count s role =
    if role == sub_publisher
    then record s { sub_publisher_count = u32 (s.sub_publisher_count + 1) }
    else (if role == subscriber
        then record s { subscriber_count = u32 (s.subscriber_count + 1) }
        else s)

unfoldable pub decrement_role_count : SessionRecord → ℕ → SessionRecord
decrement_role_count s role =
    if role == sub_publisher
    then (if ltb 0 s.sub_publisher_count
        then record s { sub_publisher_count = s.sub_publisher_count - 1 }
        else s)
    else (if role == subscriber
        then (if ltb 0 s.subscriber_count
            then record s { subscriber_count = s.subscriber_count - 1 }
            else s)
        else s)

unfoldable pub put_session : Manager → EndpointKey → SessionRecord → Manager
put_session m key s = record m { sessions = store key s m.sessions }

unfoldable pub drop_session : Manager → EndpointKey → Manager
drop_session m key = record m { sessions = erase key m.sessions }

-- The record that `emplace` makes for an endpoint without one.
abbrev pub session_or_new : Option SessionRecord → CameraEndpoint → SessionRecord
session_or_new (some s) endpoint = s
session_or_new none endpoint = record {
  endpoint = endpoint;
  members = [];
  sub_publisher_count = 0;
  subscriber_count = 0;
  is_streaming = false;
}

-- A new member.
unfoldable pub enlist : SessionRecord → Bytes → ℕ → SessionRecord
unfolding increment_role_count
enlist s client role =
    increment_role_count (record s { members = store client role s.members }) role

-- A member that asks for another role.
unfoldable pub change_role : SessionRecord → Bytes → ℕ → ℕ → SessionRecord
unfolding increment_role_count decrement_role_count
change_role s client old role =
    let less = decrement_role_count s old in
    increment_role_count (record less { members = store client role less.members }) role

-- A member that leaves.
unfoldable pub withdraw : SessionRecord → Bytes → ℕ → SessionRecord
unfolding decrement_role_count
withdraw s client role =
    let less = decrement_role_count s role in record less { members = erase client less.members }

-- No callback counts as a start that succeeds, an exception as one that fails.
abbrev pub start_ok : Bool → Outcome → Bool
start_ok false o = true
start_ok true (returns b) = b
start_ok true throws = false

abbrev pub start_calls : Bool → CameraEndpoint → Outcome → List CallbackCall
start_calls false e o = []
start_calls true e o = start_called e (start_ok true o) ∷ []

-- The first member of a session that does not stream starts it; `m` holds the session already.
unfoldable pub start_session :
    Manager → EndpointKey → SessionRecord → Bytes → ℕ → Outcome → Manager × Bool
unfolding put_session drop_session enlist
start_session m key s client role o =
    let called = record m { calls = m.calls ++ start_calls m.has_start s.endpoint o } in
    if start_ok m.has_start o
    then (put_session called key (enlist (record s { is_streaming = true }) client role), true)
    else (if is_empty s.members then drop_session called key else called, false)

unfoldable pub admit :
    Manager → EndpointKey → SessionRecord → Bytes → ℕ → Outcome → Option ℕ → Manager × Bool
unfolding put_session change_role enlist start_session
admit m key s client role o (some old) =
    if old == role then (m, true) else (put_session m key (change_role s client old role), true)
admit m key s client role o none =
    if s.is_streaming
    then (put_session m key (enlist s client role), true)
    else start_session m key s client role o

unfoldable pub subscribe : Manager → Bytes → ℕ → CameraEndpoint → Outcome → Manager × Bool
unfolding is_role_subscribable put_session admit
subscribe m client role endpoint o =
    if is_empty client || not (is_role_subscribable role)
    then (m, false)
    else (if is_empty m.core_publisher_id
        then (m, false)
        else (let key = key_of endpoint in
            let s = session_or_new (find key m.sessions) (normalize_endpoint endpoint) in
            admit (put_session m key s) key s client role o (find client s.members)))

-- What is left of a session after a member leaves.
unfoldable pub leave : Manager → EndpointKey → SessionRecord → Manager × Bool
unfolding put_session drop_session
leave m key s =
    if not (is_empty s.members)
    then (put_session m key s, true)
    else (let stopped = record m {
      calls = m.calls ++ (if s.is_streaming && m.has_stop then stop_called s.endpoint ∷ [] else []);
    } in
        (drop_session stopped key, true))

abbrev pub unsubscribe_member :
    Manager → EndpointKey → Bytes → SessionRecord → Option ℕ → Manager × Bool
unsubscribe_member m key client s none = (m, false)
unsubscribe_member m key client s (some role) = leave m key (withdraw s client role)

abbrev pub unsubscribe_session :
    Manager → EndpointKey → Bytes → Option SessionRecord → Manager × Bool
unsubscribe_session m key client none = (m, false)
unsubscribe_session m key client (some s) =
    unsubscribe_member m key client s (find client s.members)

unfoldable pub unsubscribe : Manager → Bytes → CameraEndpoint → Manager × Bool
unsubscribe m client endpoint =
    if is_empty client
    then (m, false)
    else unsubscribe_session m (key_of endpoint) client (find (key_of endpoint) m.sessions)

unfoldable pub get_subscriber_count : Manager → CameraEndpoint → ℕ
get_subscriber_count m endpoint = elim (find (key_of endpoint) m.sessions) [
  | none ↦ 0
  | some s ↦ u32 (length s.members)
]

unfoldable pub has_active_session : Manager → CameraEndpoint → Bool
has_active_session m endpoint = elim (find (key_of endpoint) m.sessions) [
  | none ↦ false
  | some s ↦ s.is_streaming
]

pub record SessionSnapshot : Type 0 where
  pub endpoint : CameraEndpoint
  pub sub_publisher_count : ℕ
  pub subscriber_count : ℕ
  pub total_count : ℕ
  pub is_streaming : Bool

unfoldable pub snapshot : SessionRecord → SessionSnapshot
snapshot s = record {
  endpoint = s.endpoint;
  sub_publisher_count = s.sub_publisher_count;
  subscriber_count = s.subscriber_count;
  total_count = u32 (length s.members);
  is_streaming = s.is_streaming;
}

unfoldable pub list_sessions : Manager → List SessionSnapshot
unfolding snapshot
list_sessions m = map (λ kv. snapshot kv.1) m.sessions

pub data Request : Type 0 where
  registers unregisters : Bytes → Request
  subscribes : Bytes → ℕ → CameraEndpoint → Outcome → Request
  unsubscribes : Bytes → CameraEndpoint → Request

unfoldable pub step : Manager → Request → Manager
step m (registers id) = (register_core_publisher m id).0
step m (unregisters id) = (unregister_core_publisher m id).0
step m (subscribes client role e o) = (subscribe m client role e o).0
step m (unsubscribes client e) = (unsubscribe m client e).0

unfoldable pub run : Manager → List Request → Manager
run m [] = m
run m (r ∷ rs) = run (step m r) rs
