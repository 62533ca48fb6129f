-- ===== src/Ipc/Control/Records.antt =====
-- ProcessRequest of src/ipc/camera_control_server.cpp: what a connection's list says after a request.
use camera_subsystem.Prelude.{
  ℕ, ◌≡◌, refl, ap, ◌∙◌, ◌⊎◌, inl, inr, Bool, true, false, not, ◌||◌, Option, none, some, List, [],
  ◌∷◌, ◌++◌, arith, ◌==◌, ==_iff, Bool-cases, keep, Bytes, c_str, bytes_same_iff, bytes_eq, nat_eq,
  find, store, find-store,
}
use camera_subsystem.Ipc.Contract.{core_publisher, CameraEndpoint}
use camera_subsystem.Session.{Manager, is_core_publisher_registered}
use camera_subsystem.Ipc.Control.{
  reply, invalid_message, invalid_role, core_publisher_unavailable, do_subscribe, do_unsubscribe,
  dispatch, with_manager, make_control_response, is_request_header_valid, ends_nul, command_ping,
  command_unsubscribe, ControlServer, any_for, ClientSubscription, endpoint_equals,
  add_client_subscription, remove_client_subscription, process_request, is_for, ControlRequest,
  Outcome, status_ok, endpoint_in, command_subscribe, ControlResponse, ControlStatus,
}

-- Whether a connection's list has the client at the endpoint.
abbrev pub listed : Bytes → CameraEndpoint → Option (List ClientSubscription) → Bool
listed client endpoint none = false
listed client endpoint (some items) = any_for client endpoint items

abbrev pub is_recorded : ControlServer → ℕ → Bytes → CameraEndpoint → Bool
is_recorded s fd client endpoint = listed client endpoint (find fd s.client_subscriptions)

any_for-snoc :
    (client : Bytes) (e : CameraEndpoint) (items : List ClientSubscription)
    (item : ClientSubscription)
    → any_for client e (items ++ item ∷ []) ≡ (any_for client e items || is_for client e item)
any_for-snoc client e [] item = ground arith
any_for-snoc client e (x ∷ items) item = ground (arith, any_for-snoc client e items item)

any_for-keep :
    (client : Bytes) (e : CameraEndpoint) (items : List ClientSubscription)
    → any_for client e (keep (λ item. not (is_for client e item)) items) ≡ false
any_for-keep client e [] = refl
any_for-keep client e (x ∷ items) = elim (Bool-cases (is_for client e x)) [
  | inl hit ↦ rw hit (any_for-keep client e items)
  | inr miss ↦ rw miss (ground (arith, miss, any_for-keep client e items))
]

is_for_self :
    (client : Bytes) (e : CameraEndpoint)
    → is_for client e (record { client_id = client; endpoint = e }) ≡ true
unfolding endpoint_equals
is_for_self client e = ground (
  arith,
  (bytes_same_iff client client).1 refl,
  (bytes_same_iff (c_str e.device_path) (c_str e.device_path)).1 refl,
)

store-here :
    (fd : ℕ) (items : List ClientSubscription) (m : List (ℕ × List ClientSubscription))
    → find fd (store fd items m) ≡ some items
store-here fd items m = find-store fd fd items m ∙ rw ((==_iff fd fd).1 refl) refl

module _ (s : ControlServer) (fd : ℕ) (client : Bytes) (e : CameraEndpoint)
    (items : List ClientSubscription) (h : find fd s.client_subscriptions ≡ some items) where
  add-recorded : is_recorded (add_client_subscription s fd client e) fd client e ≡ true
  unfolding add_client_subscription
  add-recorded = elim (Bool-cases (any_for client e items)) [
    | inl already ↦ rw (h, already) (ap (listed client e) h ∙ already)
    | inr new ↦
        rw (h, new)
          (ap (listed client e) (store-here fd _ s.client_subscriptions)
            ∙ any_for-snoc client e items _
            ∙ ground (arith, is_for_self client e))
  ]

  remove-recorded : is_recorded (remove_client_subscription s fd client e) fd client e ≡ false
  unfolding remove_client_subscription
  remove-recorded =
      rw h (
        ap (listed client e) (store-here fd _ s.client_subscriptions) ∙ any_for-keep client e items)

-- What an answer with `ok` says about the connection's list.
abbrev pub Follows : ℕ → ControlRequest → ControlServer × ControlResponse → Type 0
Follows fd r (after, response) =
    response.status ≡ status_ok
    → (r.command ≡ command_subscribe
        → is_recorded after fd (c_str r.client_id) (endpoint_in r) ≡ true)
      × (r.command ≡ command_unsubscribe
          → is_recorded after fd (c_str r.client_id) (endpoint_in r) ≡ false)

not_ok :
    (fd : ℕ) (r : ControlRequest) (s : ControlServer) (c : ControlStatus) (text : Bytes)
    → (c ≡ status_ok → ⊥)
    → Follows fd r (s, reply c text)
unfolding make_control_response
not_ok fd r s c text wrong okay = absurd (wrong okay)

module _ (s : ControlServer) (fd : ℕ) (r : ControlRequest) (items : List ClientSubscription)
    (h : find fd s.client_subscriptions ≡ some items) where
  subscribe-Follows :
      (out : Manager × Bool)
      → r.command ≡ command_subscribe
      → Follows fd r (do_subscribe s fd (c_str r.client_id) (endpoint_in r) out)
  unfolding make_control_response
  subscribe-Follows (m, true) c okay = (
    λ e. add-recorded (record s { session_manager = some m }) fd _ _ items h,
    λ e. absurd (omega (arith, c, e)),
  )
  subscribe-Follows (m, false) c okay = absurd (ground (arith, okay))

  unsubscribe-Follows :
      (out : Manager × Bool)
      → r.command ≡ command_unsubscribe
      → Follows fd r (do_unsubscribe s fd (c_str r.client_id) (endpoint_in r) out)
  unfolding make_control_response
  unsubscribe-Follows (m, true) c okay = (
    λ e. absurd (omega (arith, c, e)),
    λ e. remove-recorded (record s { session_manager = some m }) fd _ _ items h,
  )
  unsubscribe-Follows (m, false) c okay = absurd (ground (arith, okay))

  dispatch-Follows : (m : Manager) (o : Outcome) → Follows fd r (dispatch s m fd r o)
  unfolding dispatch
  dispatch-Follows m o = elim (Bool-cases (r.command == command_subscribe)) [
    | inl sub ↦ rw sub (subscribe-Follows _ ((==_iff _ _).0 sub))
    | inr other ↦ elim (Bool-cases (r.command == command_unsubscribe)) [
      | inl unsub ↦ rw (other, unsub) (unsubscribe-Follows _ ((==_iff _ _).0 unsub))
      | inr unsupported ↦ rw (other, unsupported) (not_ok fd r s invalid_message _ (λ e. cc))
    ]
  ]

  with_manager-Follows : (x : Option Manager) (o : Outcome) → Follows fd r (with_manager s x fd r o)
  with_manager-Follows none o = not_ok fd r s core_publisher_unavailable _ (λ e. cc)
  with_manager-Follows (some m) o = elim (Bool-cases (is_core_publisher_registered m)) [
    | inl there ↦ rw there (dispatch-Follows m o)
    | inr absent ↦ rw absent (not_ok fd r s core_publisher_unavailable _ (λ e. cc))
  ]

  process_request-Follows : (o : Outcome) → Follows fd r (process_request s fd r o)
  unfolding process_request
  process_request-Follows o = elim (Bool-cases (is_request_header_valid r)) [
    | inr bad ↦ rw bad (not_ok fd r s invalid_message _ (λ e. cc))
    | inl fine ↦ elim (Bool-cases (ends_nul r.client_id)) [
      | inr open_end ↦ rw (fine, open_end) (not_ok fd r s invalid_message _ (λ e. cc))
      | inl ended ↦ elim (Bool-cases (r.command == command_ping)) [
        | inl ping ↦
            rw (fine, ended, ping)
              (λ okay.
                (λ e. absurd (ground (arith, ping, e)), λ e. absurd (ground (arith, ping, e))))
        | inr work ↦ elim (Bool-cases (r.role == core_publisher)) [
          | inl core ↦ rw (fine, ended, work, core) (not_ok fd r s invalid_role _ (λ e. cc))
          | inr client ↦ rw (fine, ended, work, client) (with_manager-Follows s.session_manager o)
        ]
      ]
    ]
  ]

-- For a connection that the server knows, a subscribe request answered with `ok` leaves the client
-- recorded at the endpoint, and an unsubscribe request answered with `ok` leaves it not recorded.
pub records_follow_requests :
    (s : ControlServer) (fd : ℕ) (items : List ClientSubscription) (r : ControlRequest)
    (o : Outcome)
    → find fd s.client_subscriptions ≡ some items
    → (process_request s fd r o).1.status ≡ status_ok
    → (r.command ≡ command_subscribe) ⊎ (r.command ≡ command_unsubscribe)
    → is_recorded (process_request s fd r o).0 fd (c_str r.client_id) (endpoint_in r)
      ≡ (r.command == command_subscribe)
records_follow_requests s fd items r o h okay (inl sub) =
    (process_request-Follows s fd r items h o okay).0 sub ∙ ground (arith, sub)
records_follow_requests s fd items r o h okay (inr unsub) =
    (process_request-Follows s fd r items h o okay).1 unsub ∙ ground (arith, unsub)
