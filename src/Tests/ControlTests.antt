-- ===== src/Tests/ControlTests.antt =====
-- A connection of CameraControlServer (src/ipc/camera_control_server.cpp) on small inputs.
use camera_subsystem.Session.{
  is_core_publisher_registered, key_eq, key_of, Manager, returns, new_manager,
  register_core_publisher, subscribe,
}
use camera_subsystem.Ipc.Control.{
  is_request_header_valid, dispatch, make_control_response, ControlRequest, ControlServer,
  ClientSubscription, make_control_request, command_subscribe, status_ok, process_request,
  end_client, endpoint_in,
}
use camera_subsystem.Prelude.{
  ◌≡◌, refl, inl, true, none, some, [], ◌∷◌, if◌then◌else◌, codes, c_str, bytes_eq, nat_eq, find,
}
use camera_subsystem.Ipc.Contract.{CameraEndpoint, make_default_camera_endpoint, subscriber}
use camera_subsystem.Ipc.Control.Records.{is_recorded, records_follow_requests}
use camera_subsystem.Ipc.Control.Cleanup.{any_covers, server_role, end_client_withdraws}

abbrev front : CameraEndpoint
front = make_default_camera_endpoint 0

abbrev published : Manager
published = (register_core_publisher (new_manager true true) (codes "core")).0

-- Connection 7 is there and has subscribed to nothing.
abbrev server : ControlServer
server = record { client_subscriptions = (7, []) ∷ []; session_manager = some published }

abbrev request : ControlRequest
request = make_control_request command_subscribe subscriber front (codes "a")

request_ok : (process_request server 7 request (returns true)).1.status ≡ status_ok
unfolding process_request is_request_header_valid make_control_request is_core_publisher_registered
    register_core_publisher new_manager dispatch subscribe make_control_response
request_ok = refl

records_follow_requests_example :
    is_recorded
      (process_request server 7 request (returns true)).0
      7
      (c_str request.client_id)
      (endpoint_in request)
    ≡ true
unfolding make_control_request
records_follow_requests_example =
    records_follow_requests server 7 [] request (returns true) refl request_ok (inl refl)

-- Connection 7 has subscribed for one client.
abbrev item : ClientSubscription
item = record { client_id = codes "a"; endpoint = front }

abbrev busy : ControlServer
busy = record {
  client_subscriptions = (7, item ∷ []) ∷ [];
  session_manager = some (subscribe published (codes "a") subscriber front (returns true)).0;
}

end_client_withdraws_example :
    let s' = end_client busy 7 in
    (server_role s' (key_of front) (codes "a") ≡ (
      if any_covers (key_of front) (codes "a") (item ∷ [])
      then none
      else server_role busy (key_of front) (codes "a")))
    × (find 7 s'.client_subscriptions ≡ none)
end_client_withdraws_example =
    end_client_withdraws busy 7 (item ∷ []) (key_of front) (codes "a") refl
