-- ===== src/Session/Consistency.antt =====
-- The sessions of the manager (src/camera/camera_session_manager.cpp) after any requests.
use camera_subsystem.Prelude.{
  ℕ, suc, ◌^◌, ◌≤◌, ◌<◌, ◌≡◌, refl, ap, subst, ◌∙◌, inl, inr, Bool, true, false, not, ◌||◌, Option,
  none, some, arith, ◌==◌, if◌then◌else◌, Bool-cases, Bytes, is_empty, bytes_eq, nat_eq, ◌=?◌, find,
  find-store, find-erase, find-store-store, find-erase-store,
}
use camera_subsystem.Ipc.Contract.{CameraEndpoint}
use camera_subsystem.Session.{
  EndpointKey, key_same_iff, key_eq, SessionRecord, Manager, Outcome, key_of, build_endpoint_key,
  normalize_endpoint, is_role_subscribable, put_session, drop_session, session_or_new, enlist,
  start_ok, start_session, admit, subscribe,
}
use camera_subsystem.Session.Accounts.{
  IsKept, IsKept-mono, new-IsKept, enlist-IsKept, change_role-IsKept, enlist-shape,
  change_role-shape, IsKept-stream,
}

-- A session in the table: its accounts are kept, it streams, somebody is a member, and it stands
-- under the key of its endpoint.
pub record IsOpen (b : ℕ) (k : EndpointKey) (s : SessionRecord) : Type 0 where
  pub accounts : IsKept b s
  pub streams : s.is_streaming ≡ true
  pub joined : is_empty s.members ≡ false
  pub keyed : build_endpoint_key s.endpoint ≡ k

pub record IsConsistent (b : ℕ) (m : Manager) : Type 0 where
  pub opens : (k : EndpointKey) (s : SessionRecord) → find k m.sessions ≡ some s → IsOpen b k s
  pub published : is_empty m.sessions ≡ false → is_empty m.core_publisher_id ≡ false

-- The table with one entry replaced, added or taken out.
abbrev pub Retargets : Manager → EndpointKey → Option SessionRecord → Manager → Type 0
Retargets m key x m' =
    (j : EndpointKey) → find j m'.sessions ≡ (if key =? j then x else find j m.sessions)

pub put-Retargets :
    (m : Manager) (key : EndpointKey) (s : SessionRecord)
    → Retargets m key (some s) (put_session m key s)
unfolding put_session
put-Retargets m key s j = find-store key j s m.sessions

pub drop-Retargets : (m : Manager) (key : EndpointKey) → Retargets m key none (drop_session m key)
unfolding drop_session
drop-Retargets m key j = find-erase key j m.sessions

pub again-Retargets :
    (m n o : Manager) (key : EndpointKey) (x y : Option SessionRecord)
    → Retargets m key x n
    → Retargets n key y o
    → Retargets m key y o
again-Retargets m n o key x y p q j = ground (arith, p j, q j)

abbrev pub IsOpen? : ℕ → EndpointKey → Option SessionRecord → Type 0
IsOpen? b k none = Unit
IsOpen? b k (some s) = IsOpen b k s

IsOpen-mono : (b c : ℕ) (k : EndpointKey) (s : SessionRecord) → b ≤ c → IsOpen b k s → IsOpen c k s
IsOpen-mono b c k s le v = record {
  accounts = IsKept-mono b c s le v.accounts;
  streams = v.streams;
  joined = v.joined;
  keyed = v.keyed;
}

pub IsConsistent-mono : (b c : ℕ) (m : Manager) → b ≤ c → IsConsistent b m → IsConsistent c m
IsConsistent-mono b c m le v = record {
  opens = λ k s h. IsOpen-mono b c k s le (v.opens k s h);
  published = v.published;
}

IsOpen-of_some :
    (b : ℕ) (k : EndpointKey) (x : Option SessionRecord) (s : SessionRecord)
    → x ≡ some s
    → IsOpen? b k x
    → IsOpen b k s
IsOpen-of_some b k x s e good = subst (IsOpen? b k) e good

pub retarget :
    (b : ℕ) (m m' : Manager) (key : EndpointKey) (x : Option SessionRecord)
    → IsConsistent b m
    → Retargets m key x m'
    → IsOpen? b key x
    → is_empty m'.core_publisher_id ≡ false
    → IsConsistent b m'
retarget b m m' key x v shape good core = record {
  opens = λ k s h. elim (Bool-cases (key =? k)) [
    | inl same ↦
        subst (λ j. IsOpen b j s) ((key_same_iff key k).0 same)
          (IsOpen-of_some b key x s (ground (arith, same, shape k)) good)
    | inr other ↦ v.opens k s (ground (arith, other, shape k))
  ];
  published = λ _. core;
}

-- Whether the session streams decides how a new member is admitted.
admit_by :
    (m : Manager) (key : EndpointKey) (s : SessionRecord) (client : Bytes) (role : ℕ) (o : Outcome)
    (x : Bool)
    → s.is_streaming ≡ x
    → admit m key s client role o none ≡ (
        if x
        then (put_session m key (enlist s client role), true)
        else start_session m key s client role o)
unfolding admit
admit_by m key s client role o x h =
    ap
      (λ y.
        if y
        then (put_session m key (enlist s client role), true)
        else start_session m key s client role o)
      h

pub admit_streaming :
    (m : Manager) (key : EndpointKey) (s : SessionRecord) (client : Bytes) (role : ℕ) (o : Outcome)
    → s.is_streaming ≡ true
    → admit m key s client role o none ≡ (put_session m key (enlist s client role), true)
admit_streaming m key s client role o h = admit_by m key s client role o true h

pub admit_idle :
    (m : Manager) (key : EndpointKey) (s : SessionRecord) (client : Bytes) (role : ℕ) (o : Outcome)
    → s.is_streaming ≡ false
    → admit m key s client role o none ≡ start_session m key s client role o
admit_idle m key s client role o h = admit_by m key s client role o false h

-- The parts of `subscribe`, from a consistent manager whose table has the session `s` or lacks it.
module _ (b : ℕ) (m : Manager) (endpoint : CameraEndpoint) (client : Bytes) (role : ℕ) (o : Outcome)
    (v : IsConsistent b m) (small : suc b < 2 ^ 32) (ok : is_role_subscribable role ≡ true)
    (core : is_empty m.core_publisher_id ≡ false) where
  abbrev spot : EndpointKey
  spot = key_of endpoint

  abbrev grown : IsConsistent (suc b) m
  grown = IsConsistent-mono b (suc b) m (omega arith) v

  abbrev made : SessionRecord
  made = session_or_new none (normalize_endpoint endpoint)

  -- A member that joins a record that streams.
  enlist-IsOpen :
      (s : SessionRecord)
      → IsKept b s
      → s.is_streaming ≡ true
      → build_endpoint_key s.endpoint ≡ spot
      → find client s.members ≡ none
      → IsOpen (suc b) spot (enlist s client role)
  enlist-IsOpen s kept streams keyed absent =
      let shape = enlist-shape s client role in
      record {
        accounts = enlist-IsKept b s client role small absent ok kept;
        streams = shape.0.1 ∙ streams;
        joined = shape.2;
        keyed = ap build_endpoint_key shape.0.0 ∙ keyed;
      }

  admit_new :
      IsConsistent (suc b) (start_session (put_session m spot made) spot made client role o).0
  unfolding start_session
  admit_new = elim (Bool-cases (start_ok m.has_start o)) [
    | inl began ↦
        rw (began, start_session)
          (retarget (suc b) m _ spot _ grown (λ j. find-store-store spot j made _ m.sessions)
            (enlist-IsOpen (record made { is_streaming = true })
              (IsKept-stream b made true (new-IsKept b (normalize_endpoint endpoint))) refl refl
              refl)
            core)
    | inr failed ↦
        rw (failed, start_session)
          (retarget (suc b) m _ spot none grown (λ j. find-erase-store spot j made m.sessions) tt
            core)
  ]

  admit_absent :
      (s : SessionRecord)
      → find spot m.sessions ≡ some s
      → find client s.members ≡ none
      → IsConsistent (suc b) (admit (put_session m spot s) spot s client role o none).0
  unfolding put_session
  admit_absent s h absent =
      let open_one = v.opens spot s h in
      rw (admit_streaming (put_session m spot s) spot s client role o open_one.streams) (
        retarget (suc b) m _ spot _ grown (λ j. find-store-store spot j s _ m.sessions)
          (enlist-IsOpen s open_one.accounts open_one.streams open_one.keyed absent) core)

  admit_present :
      (s : SessionRecord) (old : ℕ)
      → find spot m.sessions ≡ some s
      → find client s.members ≡ some old
      → IsConsistent (suc b) (admit (put_session m spot s) spot s client role o (some old)).0
  unfolding admit put_session
  admit_present s old h there =
      let open_one = IsOpen-mono b (suc b) spot s (omega arith) (v.opens spot s h) in
      let shape = change_role-shape s client old role in
      elim (Bool-cases (old == role)) [
        | inl same ↦
            rw same (
              retarget (suc b) m _ spot _ grown (λ j. find-store spot j s m.sessions) open_one core)
        | inr other ↦ rw other (
            retarget (suc b) m _ spot _ grown (λ j. find-store-store spot j s _ m.sessions)
              (record {
                accounts = IsKept-mono b (suc b) _ (omega arith) (
                    change_role-IsKept b s client old there (v.opens spot s h).accounts role small
                      ok);
                streams = shape.0.1 ∙ open_one.streams;
                joined = shape.2;
                keyed = ap build_endpoint_key shape.0.0 ∙ open_one.keyed;
              })
              core)
      ]

  admit-IsConsistent :
      (x : Option SessionRecord)
      → find spot m.sessions ≡ x
      → let s = session_or_new x (normalize_endpoint endpoint) in
        (r : Option ℕ)
        → find client s.members ≡ r
        → IsConsistent (suc b) (admit (put_session m spot s) spot s client role o r).0
  unfolding admit
  admit-IsConsistent none h none e = admit_new
  admit-IsConsistent none h (some old) e = cc
  admit-IsConsistent (some s) h none e = admit_absent s h e
  admit-IsConsistent (some s) h (some old) e = admit_present s old h e

-- A subscription keeps the manager consistent, whatever the start callback does.
pub subscribe-IsConsistent :
    (b : ℕ) (m : Manager) (client : Bytes) (role : ℕ) (endpoint : CameraEndpoint) (o : Outcome)
    → suc b < 2 ^ 32
    → IsConsistent b m
    → IsConsistent (suc b) (subscribe m client role endpoint o).0
unfolding subscribe
subscribe-IsConsistent b m client role endpoint o small v =
    elim (Bool-cases (is_empty client || not (is_role_subscribable role))) [
      | inl refused ↦ rw refused same_one
      | inr asked ↦ elim (Bool-cases (is_empty m.core_publisher_id)) [
        | inl nobody ↦ rw (asked, nobody) same_one
        | inr core ↦
            rw (asked, core)
              (admit-IsConsistent b m endpoint client role o v small (ground arith) core _ refl _
                refl)
      ]
    ]
  where
    same_one : IsConsistent (suc b) m
    same_one = IsConsistent-mono b (suc b) m (omega arith) v
