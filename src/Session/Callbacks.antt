-- ===== src/Session/Callbacks.antt =====
-- The calls of the start and stop callbacks by src/camera/camera_session_manager.cpp.
use camera_subsystem.Session.{
  EndpointKey, key_same_iff, key_eq, SessionRecord, Manager, Outcome, CallbackCall, start_called,
  stop_called, Request, registers, unregisters, subscribes, unsubscribes, new_manager,
  register_core_publisher, unregister_core_publisher, key_of, build_endpoint_key,
  normalize_endpoint, is_role_subscribable, put_session, session_or_new, enlist, change_role,
  withdraw, start_ok, start_calls, start_session, admit, subscribe, leave, unsubscribe_member,
  unsubscribe_session, unsubscribe, step, run,
}
use camera_subsystem.Session.Accounts.{withdraw-shape}
use camera_subsystem.Session.Consistency.{IsConsistent, admit_streaming}
use camera_subsystem.Session.Histories.{step-IsConsistent, new-IsConsistent}
use camera_subsystem.Prelude.{
  ℕ, ◌+◌, ◌≡◌, refl, ◌∙◌, inl, inr, Bool, true, false, ◌&&◌, Option, none, some, List, ◌++◌, arith,
  Bool-cases, tally, tally-append, Bytes, bytes_eq, nat_eq, ◌=?◌, find, find-store-store,
  find-erase-store, is_empty, ap, length, suc, ◌^◌, ◌<◌, not, ◌||◌, [], ◌∷◌, ◌==◌, if◌then◌else◌,
  find-store, find-erase,
}
use camera_subsystem.Ipc.Contract.{CameraEndpoint}

-- A start for the key that succeeded, and a stop for it.
abbrev pub begins : EndpointKey → CallbackCall → Bool
begins k (start_called e ok) = ok && build_endpoint_key e =? k
begins k (stop_called e) = false

abbrev pub ends : EndpointKey → CallbackCall → Bool
ends k (start_called e ok) = false
ends k (stop_called e) = build_endpoint_key e =? k

abbrev pub present : Option SessionRecord → ℕ
present none = 0
present (some s) = 1

-- Both callbacks are set, and each key has had as many successful starts as stops, and one more
-- while it has a session.
pub record IsBalanced (m : Manager) : Type 0 where
  pub starts : m.has_start ≡ true
  pub stops : m.has_stop ≡ true
  pub even :
      (k : EndpointKey)
      → tally (begins k) m.calls ≡ tally (ends k) m.calls + present (find k m.sessions)

-- No call, and the same keys.
quiet :
    (m m' : Manager)
    → IsBalanced m
    → m'.has_start ≡ m.has_start
    → m'.has_stop ≡ m.has_stop
    → m'.calls ≡ m.calls
    → ((k : EndpointKey) → present (find k m'.sessions) ≡ present (find k m.sessions))
    → IsBalanced m'
quiet m m' v a b c same = record {
  starts = a ∙ v.starts;
  stops = b ∙ v.stops;
  even = λ k. ground (arith, v.even k, same k, c);
}

-- Some calls, with a change of the table to match.
noted :
    (m m' : Manager) (more : List CallbackCall)
    → IsBalanced m
    → m'.has_start ≡ m.has_start
    → m'.has_stop ≡ m.has_stop
    → m'.calls ≡ m.calls ++ more
    → ((k : EndpointKey)
        → tally (begins k) more + present (find k m.sessions)
          ≡ tally (ends k) more + present (find k m'.sessions))
    → IsBalanced m'
noted m m' more v a b c match = record {
  starts = a ∙ v.starts;
  stops = b ∙ v.stops;
  even = λ k. ground (
    arith,
    v.even k,
    match k,
    c,
    tally-append (begins k) m.calls more,
    tally-append (ends k) m.calls more,
  );
}

module _ (m : Manager) (endpoint : CameraEndpoint) (client : Bytes) (role : ℕ) (o : Outcome)
    (v : IsBalanced m) where
  abbrev spot : EndpointKey
  spot = key_of endpoint

  abbrev made : SessionRecord
  made = session_or_new none (normalize_endpoint endpoint)

  start-IsBalanced :
      find spot m.sessions ≡ none
      → IsBalanced (start_session (put_session m spot made) spot made client role o).0
  unfolding start_session
  start-IsBalanced new = elim (Bool-cases (start_ok m.has_start o)) [
    | inl began ↦
        rw (began, start_session)
          (noted m _ (start_calls m.has_start (normalize_endpoint endpoint) o) v refl refl refl
            (λ k. ground (
              arith,
              v.starts,
              began,
              new,
              key_same_iff spot k,
              find-store-store spot k made
                  (enlist (record made { is_streaming = true }) client role) m.sessions,
            )))
    | inr failed ↦
        rw (failed, start_session)
          (noted m _ (start_calls m.has_start (normalize_endpoint endpoint) o) v refl refl refl
            (λ k. ground (
              arith,
              v.starts,
              failed,
              new,
              key_same_iff spot k,
              find-erase-store spot k made m.sessions,
            )))
  ]

  -- The session is there and streams: no call.
  member-IsBalanced :
      (s : SessionRecord)
      → find spot m.sessions ≡ some s
      → s.is_streaming ≡ true
      → (r : Option ℕ) → IsBalanced (admit (put_session m spot s) spot s client role o r).0
  unfolding put_session admit
  member-IsBalanced s h streams none =
      rw (admit_streaming (put_session m spot s) spot s client role o streams) (
        quiet m _ v refl refl refl (λ k. ground (
          arith,
          h,
          key_same_iff spot k,
          find-store-store spot k s (enlist s client role) m.sessions,
        )))
  member-IsBalanced s h streams (some old) = elim (Bool-cases (old == role)) [
    | inl same ↦
        rw (same, admit)
          (quiet m _ v refl refl refl
            (λ k. ground (arith, h, key_same_iff spot k, find-store spot k s m.sessions)))
    | inr other ↦
        rw (other, admit)
          (quiet m _ v refl refl refl (λ k. ground (
            arith,
            h,
            key_same_iff spot k,
            find-store-store spot k s (change_role s client old role) m.sessions,
          )))
  ]

  admit-IsBalanced :
      ((s : SessionRecord) → find spot m.sessions ≡ some s → s.is_streaming ≡ true)
      → (x : Option SessionRecord) → find spot m.sessions ≡ x
      → let s = session_or_new x (normalize_endpoint endpoint) in
        IsBalanced (admit (put_session m spot s) spot s client role o (find client s.members)).0
  unfolding admit
  admit-IsBalanced all none h = start-IsBalanced h
  admit-IsBalanced all (some s) h = member-IsBalanced s h (all s h) (find client s.members)

subscribe-IsBalanced :
    (b : ℕ) (m : Manager) (client : Bytes) (role : ℕ) (endpoint : CameraEndpoint) (o : Outcome)
    → IsConsistent b m
    → IsBalanced m
    → IsBalanced (subscribe m client role endpoint o).0
unfolding subscribe
subscribe-IsBalanced b m client role endpoint o c v =
    elim (Bool-cases (is_empty client || not (is_role_subscribable role))) [
      | inl refused ↦ rw refused v
      | inr asked ↦ elim (Bool-cases (is_empty m.core_publisher_id)) [
        | inl nobody ↦ rw (asked, nobody) v
        | inr core ↦
            rw (asked, core)
              (admit-IsBalanced m endpoint client role o v
                (λ s h. (c.opens (key_of endpoint) s h).streams) _ refl)
      ]
    ]

leave-IsBalanced :
    (m : Manager) (key : EndpointKey) (s t : SessionRecord)
    → IsBalanced m
    → find key m.sessions ≡ some s
    → t.is_streaming ≡ true
    → build_endpoint_key t.endpoint ≡ key
    → IsBalanced (leave m key t).0
unfolding leave
leave-IsBalanced m key s t v h streams keyed = elim (Bool-cases (is_empty t.members)) [
  | inl last ↦ rw last (
      noted m _ (if t.is_streaming && m.has_stop then stop_called t.endpoint ∷ [] else []) v refl
        refl refl
        (λ k. ground (
          arith,
          v.stops,
          h,
          streams,
          keyed,
          key_same_iff key k,
          key_same_iff (build_endpoint_key t.endpoint) k,
          find-erase key k m.sessions,
        )))
  | inr more ↦ rw more (
      quiet m _ v refl refl refl
        (λ k. ground (arith, h, key_same_iff key k, find-store key k t m.sessions)))
]

unsubscribe_session-IsBalanced :
    (b : ℕ) (m : Manager) (key : EndpointKey) (client : Bytes)
    → IsConsistent b m
    → IsBalanced m
    → (x : Option SessionRecord) → find key m.sessions ≡ x
    → IsBalanced (unsubscribe_session m key client x).0
unsubscribe_session-IsBalanced b m key client c v none h = v
unsubscribe_session-IsBalanced b m key client c v (some s) h = go (find client s.members)
  where
    go : (r : Option ℕ) → IsBalanced (unsubscribe_member m key client s r).0
    go none = v
    go (some role) =
        let open_one = c.opens key s h in
        let shape = withdraw-shape s client role in
        leave-IsBalanced m key s (withdraw s client role) v h (shape.0.1 ∙ open_one.streams)
          (ap build_endpoint_key shape.0.0 ∙ open_one.keyed)

unsubscribe-IsBalanced :
    (b : ℕ) (m : Manager) (client : Bytes) (e : CameraEndpoint)
    → IsConsistent b m
    → IsBalanced m
    → IsBalanced (unsubscribe m client e).0
unfolding unsubscribe
unsubscribe-IsBalanced b m client e c v = elim (Bool-cases (is_empty client)) [
  | inl refused ↦ rw refused v
  | inr asked ↦ rw asked (unsubscribe_session-IsBalanced b m (key_of e) client c v _ refl)
]

step-IsBalanced :
    (b : ℕ) (m : Manager) (r : Request) → IsConsistent b m → IsBalanced m → IsBalanced (step m r)
unfolding step register_core_publisher unregister_core_publisher
step-IsBalanced b m (registers id) c v =
    quiet m _ v (ground arith) (ground arith) (ground arith) (λ k. ground arith)
step-IsBalanced b m (unregisters id) c v =
    quiet m _ v (ground arith) (ground arith) (ground arith) (λ k. ground arith)
step-IsBalanced b m (subscribes client role e o) c v = subscribe-IsBalanced b m client role e o c v
step-IsBalanced b m (unsubscribes client e) c v = unsubscribe-IsBalanced b m client e c v

run-IsBalanced :
    (b : ℕ) (m : Manager) (rs : List Request)
    → b + length rs < 2 ^ 32
    → IsConsistent b m
    → IsBalanced m
    → IsBalanced (run m rs)
unfolding run
run-IsBalanced b m [] small c v = v
run-IsBalanced b m (r ∷ rs) small c v =
    run-IsBalanced (suc b) (step m r) rs (omega arith) (step-IsConsistent b m r (omega arith) c)
      (step-IsBalanced b m r c v)

new-IsBalanced : IsBalanced (new_manager true true)
unfolding new_manager
new-IsBalanced = record { starts = refl; stops = refl; even = λ k. refl }

-- With both callbacks set, after fewer than 2^32 requests to a new manager and whatever the start
-- callback answers, each endpoint key has had one successful start more than stops if it has a
-- session, and as many if it has none.
pub starts_and_stops :
    (rs : List Request) (k : EndpointKey)
    → length rs < 2 ^ 32
    → let m = run (new_manager true true) rs in
      tally (begins k) m.calls ≡ tally (ends k) m.calls + present (find k m.sessions)
starts_and_stops rs k small =
    (run-IsBalanced 0 (new_manager true true) rs (omega arith) (new-IsConsistent true true)
        new-IsBalanced).even
      k
