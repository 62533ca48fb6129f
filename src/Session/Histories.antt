-- ===== src/Session/Histories.antt =====
-- The session manager (src/camera/camera_session_manager.cpp) over any list of requests.
use camera_subsystem.Prelude.{
  ℕ, suc, ◌+◌, ◌^◌, ◌<◌, ◌≡◌, refl, ap, ◌∙◌, inl, inr, Bool, true, false, Option, none, some, List,
  [], ◌∷◌, arith, Bool-cases, length, Bytes, is_empty, bytes_eq, nat_eq, find, find-store,
  find-erase,
}
use camera_subsystem.Ipc.Contract.{CameraEndpoint}
use camera_subsystem.Session.{
  EndpointKey, key_eq, SessionRecord, Manager, Request, registers, unregisters, subscribes,
  unsubscribes, new_manager, register_core_publisher, unregister_core_publisher, key_of,
  build_endpoint_key, withdraw, leave, unsubscribe_member, unsubscribe_session, unsubscribe, step,
  run,
}
use camera_subsystem.Session.Accounts.{IsKept, withdraw-IsKept, withdraw-shape}
use camera_subsystem.Session.Consistency.{
  IsConsistent, IsConsistent-mono, retarget, subscribe-IsConsistent,
}

is_empty_of_find :
    (k : EndpointKey) (s : SessionRecord) (ss : List (EndpointKey × SessionRecord))
    → find k ss ≡ some s
    → is_empty ss ≡ false
is_empty_of_find k s [] h = cc
is_empty_of_find k s (x ∷ ss) h = refl

leave-IsConsistent :
    (b : ℕ) (m : Manager) (key : EndpointKey) (s t : SessionRecord)
    → IsConsistent b m
    → find key m.sessions ≡ some s
    → IsKept b t
    → t.is_streaming ≡ true
    → build_endpoint_key t.endpoint ≡ key
    → IsConsistent b (leave m key t).0
unfolding leave
leave-IsConsistent b m key s t v h kept streams keyed =
    let core = v.published (is_empty_of_find key s m.sessions h) in
    elim (Bool-cases (is_empty t.members)) [
      | inl last ↦ rw last (retarget b m _ key none v (λ j. find-erase key j m.sessions) tt core)
      | inr more ↦ rw more (
          retarget b m _ key (some t) v (λ j. find-store key j t m.sessions)
            (record { accounts = kept; streams = streams; joined = more; keyed = keyed }) core)
    ]

unsubscribe_session-IsConsistent :
    (b : ℕ) (m : Manager) (key : EndpointKey) (client : Bytes)
    → IsConsistent b m
    → (x : Option SessionRecord) → find key m.sessions ≡ x
    → IsConsistent b (unsubscribe_session m key client x).0
unsubscribe_session-IsConsistent b m key client v none h = v
unsubscribe_session-IsConsistent b m key client v (some s) h = go (find client s.members) refl
  where
    go :
        (r : Option ℕ)
        → find client s.members ≡ r
        → IsConsistent b (unsubscribe_member m key client s r).0
    go none e = v
    go (some role) e =
        let open_one = v.opens key s h in
        let shape = withdraw-shape s client role in
        leave-IsConsistent b m key s (withdraw s client role) v h
          (withdraw-IsKept b s client role e open_one.accounts) (shape.0.1 ∙ open_one.streams)
          (ap build_endpoint_key shape.0.0 ∙ open_one.keyed)

pub unsubscribe-IsConsistent :
    (b : ℕ) (m : Manager) (client : Bytes) (endpoint : CameraEndpoint)
    → IsConsistent b m
    → IsConsistent b (unsubscribe m client endpoint).0
unfolding unsubscribe
unsubscribe-IsConsistent b m client endpoint v = elim (Bool-cases (is_empty client)) [
  | inl refused ↦ rw refused v
  | inr asked ↦ rw asked (unsubscribe_session-IsConsistent b m (key_of endpoint) client v _ refl)
]

register-IsConsistent :
    (b : ℕ) (m : Manager) (id : Bytes)
    → IsConsistent b m
    → IsConsistent b (register_core_publisher m id).0
unfolding register_core_publisher
register-IsConsistent b m id v = record {
  opens = λ k s h. v.opens k s (ground arith);
  published = λ h. ground (arith, v.published);
}

unregister-IsConsistent :
    (b : ℕ) (m : Manager) (id : Bytes)
    → IsConsistent b m
    → IsConsistent b (unregister_core_publisher m id).0
unfolding unregister_core_publisher
unregister-IsConsistent b m id v = record {
  opens = λ k s h. v.opens k s (ground arith);
  published = λ h. ground (arith, v.published);
}

pub step-IsConsistent :
    (b : ℕ) (m : Manager) (r : Request)
    → suc b < 2 ^ 32
    → IsConsistent b m
    → IsConsistent (suc b) (step m r)
unfolding step
step-IsConsistent b m (registers id) small v =
    IsConsistent-mono b (suc b) _ (omega arith) (register-IsConsistent b m id v)
step-IsConsistent b m (unregisters id) small v =
    IsConsistent-mono b (suc b) _ (omega arith) (unregister-IsConsistent b m id v)
step-IsConsistent b m (subscribes client role e o) small v =
    subscribe-IsConsistent b m client role e o small v
step-IsConsistent b m (unsubscribes client e) small v =
    IsConsistent-mono b (suc b) _ (omega arith) (unsubscribe-IsConsistent b m client e v)

run-IsConsistent :
    (b : ℕ) (m : Manager) (rs : List Request)
    → b + length rs < 2 ^ 32
    → IsConsistent b m
    → IsConsistent (b + length rs) (run m rs)
unfolding run
run-IsConsistent b m [] small v = IsConsistent-mono b _ m (omega arith) v
run-IsConsistent b m (r ∷ rs) small v =
    IsConsistent-mono (suc b + length rs) _ _ (omega arith) (
      run-IsConsistent (suc b) (step m r) rs (omega arith)
        (step-IsConsistent b m r (omega arith) v))

pub new-IsConsistent : (start stop : Bool) → IsConsistent 0 (new_manager start stop)
unfolding new_manager
new-IsConsistent start stop = record { opens = λ k s h. cc; published = λ h. cc }

-- After fewer than 2^32 requests to a new manager, every session in the table stands under the key
-- of its endpoint, streams and has a member; its two role counters count the members with that
-- role and add up to all members; and sessions are there only while a core publisher is registered.
pub sessions_consistent :
    (start stop : Bool) (rs : List Request)
    → length rs < 2 ^ 32
    → IsConsistent (length rs) (run (new_manager start stop) rs)
sessions_consistent start stop rs small =
    IsConsistent-mono (0 + length rs) (length rs) _ (omega arith)
      (run-IsConsistent 0 (new_manager start stop) rs (omega arith) (new-IsConsistent start stop))
