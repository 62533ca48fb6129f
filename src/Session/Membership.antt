-- ===== src/Session/Membership.antt =====
-- Who is a member where: what `Subscribe` and `Unsubscribe` of
-- src/camera/camera_session_manager.cpp do to the map from (endpoint, client) to role.
use camera_subsystem.Session.{
  leave, withdraw, unsubscribe, unsubscribe_session, unsubscribe_member, subscribe,
  is_role_subscribable, key_of, normalize_endpoint, EndpointKey, key_same_iff, key_eq,
  SessionRecord, Manager, Outcome, session_or_new, start_session, admit, put_session, start_ok,
}
use camera_subsystem.Ipc.Contract.{CameraEndpoint}
use camera_subsystem.Session.Accounts.{withdraw-shape, enlist-shape, change_role-shape}
use camera_subsystem.Session.Consistency.{admit_streaming, admit_idle}
use camera_subsystem.Prelude.{
  ℕ, ◌≡◌, refl, inl, inr, Bool, false, ◌&&◌, Option, none, some, arith, if◌then◌else◌, Option-cases,
  Bytes, bytes_eq, nat_eq, ◌=?◌, find, store, is_empty, true, find-store, Bool-cases, subst,
  find-store-store, sym, not, ◌||◌, List, [], ◌∷◌, ◌==◌, ==_iff, bytes_same_iff, erase, find-erase,
  find-erase-store,
}

abbrev pub role_in : Option SessionRecord → Bytes → Option ℕ
role_in none c = none
role_in (some s) c = find c s.members

-- The role of a client at an endpoint, the abstract state.
abbrev pub role_of : Manager → EndpointKey → Bytes → Option ℕ
role_of m k c = role_in (find k m.sessions) c

-- What a subscription should do, by its result.
abbrev pub Joins :
    Manager → EndpointKey → Bytes → ℕ → List (EndpointKey × SessionRecord) → Bool → Type 0
Joins m key client role after done =
    (j : EndpointKey) (c : Bytes)
    → role_in (find j after) c
      ≡ (if done && (key =? j && client =? c) then some role else role_of m j c)

module _ (m : Manager) (key : EndpointKey) (client : Bytes) (role : ℕ) (e : CameraEndpoint)
    (o : Outcome) where
  abbrev known : SessionRecord
  known = session_or_new (find key m.sessions) e

  -- A record of the session with the members of before.
  known-members : (c : Bytes) → find c known.members ≡ role_of m key c
  known-members c = elim (Option-cases (find key m.sessions)) [
    | inl x ↦ rw x refl
    | inr (s, x) ↦ rw x refl
  ]

  kept-Joins :
      (after : List (EndpointKey × SessionRecord)) (t : SessionRecord)
      → ((j : EndpointKey) → find j after ≡ (if key =? j then some t else find j m.sessions))
      → t.members ≡ known.members
      → Joins m key client role after false
  kept-Joins after t shape same j c = ground (arith, shape j, key_same_iff key j, known-members c)

  joined-Joins :
      (after : List (EndpointKey × SessionRecord)) (t : SessionRecord)
      → ((j : EndpointKey) → find j after ≡ (if key =? j then some t else find j m.sessions))
      → t.members ≡ store client role known.members
      → Joins m key client role after true
  joined-Joins after t shape same j c =
      ground (
        arith,
        shape j,
        key_same_iff key j,
        known-members c,
        find-store client c role known.members,
      )

  dropped-Joins :
      (after : List (EndpointKey × SessionRecord))
      → ((j : EndpointKey) → find j after ≡ (if key =? j then none else find j m.sessions))
      → is_empty known.members ≡ true
      → Joins m key client role after false
  dropped-Joins after shape empty j c = ground (arith, shape j, key_same_iff key j, known-members c)

  start-Joins :
      let r = start_session (put_session m key known) key known client role o in
      Joins m key client role r.0.sessions r.1
  unfolding start_session
  start-Joins = elim (Bool-cases (start_ok m.has_start o)) [
    | inl began ↦
        rw (began, start_session)
          (joined-Joins _ _ (λ j. find-store-store key j known _ m.sessions)
            (enlist-shape (record known { is_streaming = true }) client role).1)
    | inr failed ↦ elim (Bool-cases (is_empty known.members)) [
      | inl empty ↦
          rw (failed, empty, start_session)
            (dropped-Joins _ (λ j. find-erase-store key j known m.sessions) empty)
      | inr busy ↦
          rw (failed, busy, start_session)
            (kept-Joins _ known (λ j. find-store key j known m.sessions) refl)
    ]
  ]

  admit-Joins :
      (r : Option ℕ)
      → find client known.members ≡ r
      → (let q = admit (put_session m key known) key known client role o r in
          Joins m key client role q.0.sessions q.1)
  unfolding admit put_session
  admit-Joins none h = elim (Bool-cases known.is_streaming) [
    | inl streams ↦
        subst (λ q. Joins m key client role q.0.sessions q.1)
          (sym (admit_streaming _ key known client role o streams))
          (joined-Joins _ _ (λ j. find-store-store key j known _ m.sessions)
            (enlist-shape known client role).1)
    | inr idle ↦
        subst (λ q. Joins m key client role q.0.sessions q.1)
          (sym (admit_idle _ key known client role o idle)) start-Joins
  ]
  admit-Joins (some old) h = elim (Bool-cases (old == role)) [
    | inl same ↦ rw same λ j c. ground (
      arith,
      find-store key j known m.sessions,
      key_same_iff key j,
      bytes_same_iff client c,
      known-members c,
      (==_iff old role).0 same,
      h,
    )
    | inr other ↦ rw other (
        joined-Joins _ _ (λ j. find-store-store key j known _ m.sessions)
          (change_role-shape known client old role).1)
  ]

-- A subscription that succeeds gives the client the role at the endpoint's key and changes no
-- other membership; one that fails, by its arguments, for want of a core publisher or because the
-- start callback fails or throws, changes no membership at all.
pub subscribe-Joins :
    (m : Manager) (client : Bytes) (role : ℕ) (endpoint : CameraEndpoint) (o : Outcome)
    → let r = subscribe m client role endpoint o in
      (j : EndpointKey) (c : Bytes)
      → role_of r.0 j c
        ≡ (if r.1 && (key_of endpoint =? j && client =? c) then some role else role_of m j c)
unfolding subscribe
subscribe-Joins m client role endpoint o =
    elim (Bool-cases (is_empty client || not (is_role_subscribable role))) [
      | inl refused ↦ rw refused (λ j c. refl)
      | inr asked ↦ elim (Bool-cases (is_empty m.core_publisher_id)) [
        | inl nobody ↦ rw (asked, nobody) (λ j c. refl)
        | inr core ↦
            rw (asked, core)
              (admit-Joins m (key_of endpoint) client role (normalize_endpoint endpoint) o _ refl)
      ]
    ]

-- What a cancellation should do, by its result.
abbrev pub Leaves :
    Manager → EndpointKey → Bytes → List (EndpointKey × SessionRecord) → Bool → Type 0
Leaves m key client after done =
    (j : EndpointKey) (c : Bytes)
    → role_in (find j after) c ≡ (if done && (key =? j && client =? c) then none else role_of m j c)

find_in_empty : (c : Bytes) (ms : List (Bytes × ℕ)) → is_empty ms ≡ true → find c ms ≡ none
find_in_empty c [] h = refl
find_in_empty c (x ∷ ms) h = cc

leave-Leaves :
    (m : Manager) (key : EndpointKey) (client : Bytes) (s t : SessionRecord)
    → find key m.sessions ≡ some s
    → t.members ≡ erase client s.members
    → Leaves m key client (leave m key t).0.sessions (leave m key t).1
unfolding leave
leave-Leaves m key client s t h less = elim (Bool-cases (is_empty t.members)) [
  | inl last ↦ rw last (λ j c. ground (
    arith,
    find-erase key j m.sessions,
    key_same_iff key j,
    find-erase client c s.members,
    find_in_empty c t.members last,
    h,
  ))
  | inr more ↦ rw more (λ j c.
      ground (
        arith,
        find-store key j t m.sessions,
        key_same_iff key j,
        find-erase client c s.members,
        h,
      ))
]

leave_succeeds : (m : Manager) (key : EndpointKey) (t : SessionRecord) → (leave m key t).1 ≡ true
unfolding leave
leave_succeeds m key t = ground arith

abbrev pub is_there : Option ℕ → Bool
is_there none = false
is_there (some r) = true

-- A cancellation succeeds exactly when the client is a member at the endpoint's key and its id is
-- not empty; then it takes that membership away and no other, and otherwise it changes none.
pub unsubscribe-Leaves :
    (m : Manager) (client : Bytes) (endpoint : CameraEndpoint)
    → let r = unsubscribe m client endpoint in
      (r.1 ≡ (not (is_empty client) && is_there (role_of m (key_of endpoint) client)))
      × Leaves m (key_of endpoint) client r.0.sessions r.1
unfolding unsubscribe
unsubscribe-Leaves m client endpoint = elim (Bool-cases (is_empty client)) [
  | inl refused ↦ rw (refused, unsubscribe) (refl, λ j c. refl)
  | inr asked ↦ rw (asked, unsubscribe) (session_part _ refl)
]
  where
    key : EndpointKey
    key = key_of endpoint

    member_part :
        (s : SessionRecord)
        → find key m.sessions ≡ some s
        → (r : Option ℕ) → find client s.members ≡ r
        → let q = unsubscribe_member m key client s r in
          (q.1 ≡ is_there r) × Leaves m key client q.0.sessions q.1
    member_part s h none e = (refl, λ j c. refl)
    member_part s h (some role) e = (
      leave_succeeds m key (withdraw s client role),
      leave-Leaves m key client s _ h (withdraw-shape s client role).1,
    )

    session_part :
        (x : Option SessionRecord)
        → find key m.sessions ≡ x
        → let q = unsubscribe_session m key client x in
          (q.1 ≡ is_there (role_in x client)) × Leaves m key client q.0.sessions q.1
    session_part none h = (refl, λ j c. refl)
    session_part (some s) h = member_part s h _ refl
