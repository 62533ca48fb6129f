-- ===== src/Ipc/Control/Cleanup.antt =====
-- CleanupClientSubscriptions of src/ipc/camera_control_server.cpp: a connection that ends takes its
-- own subscriptions with it.
use camera_subsystem.Prelude.{
  ℕ, ◌≡◌, refl, ap, ◌∙◌, Bool, true, false, not, ◌&&◌, ◌||◌, Option, none, some, List, [], ◌∷◌,
  arith, if◌then◌else◌, ==_iff, Bytes, is_empty, bytes_same_iff, bytes_eq, nat_eq, ◌=?◌, find,
  find-erase,
}
use camera_subsystem.Session.{EndpointKey, key_eq, key_same_iff, key_of, Manager, unsubscribe}
use camera_subsystem.Session.Membership.{role_of, unsubscribe-Leaves, is_there}
use camera_subsystem.Ipc.Control.{
  ClientSubscription, ControlServer, unsubscribe_each, cleanup_client_subscriptions, end_client,
  cleanup_items,
}

-- Whether an entry of a connection's list stands for a client's membership in a session.
abbrev pub covers : EndpointKey → Bytes → ClientSubscription → Bool
covers j c item =
    not (is_empty item.client_id) && (key_of item.endpoint =? j && item.client_id =? c)

abbrev pub any_covers : EndpointKey → Bytes → List ClientSubscription → Bool
any_covers j c [] = false
any_covers j c (item ∷ items) = covers j c item || any_covers j c items

-- A cancellation without effect found no membership to take away.
withdrawn :
    (e m r : Bool) (here before after : Option ℕ)
    → r ≡ (not e && is_there here)
    → after ≡ (if r && m then none else before)
    → (m ≡ true → here ≡ before)
    → after ≡ (if not e && m then none else before)
withdrawn true m r here before after h k same = ground (arith, h, k)
withdrawn false false r here before after h k same = ground (arith, h, k)
withdrawn false true r none before after h k same = ground (arith, h, k, same refl)
withdrawn false true r (some x) before after h k same = ground (arith, h, k)

unsubscribe-role :
    (m : Manager) (item : ClientSubscription) (j : EndpointKey) (c : Bytes)
    → role_of (unsubscribe m item.client_id item.endpoint).0 j c
      ≡ (if covers j c item then none else role_of m j c)
unsubscribe-role m item j c =
    let (result, others) = unsubscribe-Leaves m item.client_id item.endpoint in
    withdrawn (is_empty item.client_id) (key_of item.endpoint =? j && item.client_id =? c) _ _ _ _
      result (others j c)
      (λ hit.
        let same_key : key_of item.endpoint ≡ j =
          (key_same_iff (key_of item.endpoint) j).0 (ground (arith, hit)) in
        let same_client : item.client_id ≡ c =
          (bytes_same_iff item.client_id c).0 (ground (arith, hit)) in
        ap (λ k. role_of m k item.client_id) same_key ∙ ap (role_of m j) same_client)

unsubscribe_each-role :
    (m : Manager) (items : List ClientSubscription) (j : EndpointKey) (c : Bytes)
    → role_of (unsubscribe_each m items) j c
      ≡ (if any_covers j c items then none else role_of m j c)
unsubscribe_each-role m [] j c = refl
unsubscribe_each-role m (item ∷ items) j c = ground (
  arith,
  unsubscribe_each-role (unsubscribe m item.client_id item.endpoint).0 items j c,
  unsubscribe-role m item j c,
)

abbrev pub role_under : Option Manager → EndpointKey → Bytes → Option ℕ
role_under none j c = none
role_under (some m) j c = role_of m j c

-- The role of a client at a session of the server's manager.
abbrev pub server_role : ControlServer → EndpointKey → Bytes → Option ℕ
server_role s j c = role_under s.session_manager j c

cleanup-role :
    (s : ControlServer) (items : List ClientSubscription) (x : Option Manager) (j : EndpointKey)
    (c : Bytes)
    → s.session_manager ≡ x
    → server_role (cleanup_items s x (some items)) j c
      ≡ (if any_covers j c items then none else role_under x j c)
cleanup-role s items none j c e = rw e (ground arith)
cleanup-role s items (some m) j c e = unsubscribe_each-role m items j c

-- When a connection ends, exactly the memberships that its list names are gone, all others stay as
-- they are, and the connection has no list any longer.
pub end_client_withdraws :
    (s : ControlServer) (fd : ℕ) (items : List ClientSubscription) (j : EndpointKey) (c : Bytes)
    → find fd s.client_subscriptions ≡ some items
    → let s' = end_client s fd in
      (server_role s' j c ≡ (if any_covers j c items then none else server_role s j c))
      × (find fd s'.client_subscriptions ≡ none)
unfolding end_client cleanup_client_subscriptions
end_client_withdraws s fd items j c h = (
  ap (λ x. server_role (cleanup_items s s.session_manager x) j c) h
      ∙ cleanup-role s items s.session_manager j c refl,
  find-erase fd fd (cleanup_client_subscriptions s fd).client_subscriptions
      ∙ rw ((==_iff fd fd).1 refl) refl,
)
