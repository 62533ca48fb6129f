-- ===== src/Session/Accounts.antt =====
-- The role counters of one session (src/camera/camera_session_manager.cpp) against its members.
use camera_subsystem.Prelude.{
  ℕ, suc, ◌+◌, ◌^◌, ◌≤◌, ◌<◌, ◌≡◌, refl, true, none, some, arith, ◌==◌, length, Bytes, find,
  find-store, find-erase, IsUnique, store-IsUnique, erase-IsUnique, among, among-store, among-erase,
  length-store_new, length-store_old, length-erase_old, nat_eq, bytes_eq, store, erase, weight,
  weight-le-among, ◌-◌, ◌⊎◌, if◌then◌else◌, List, is_empty, false, [], ◌∷◌, Bool,
}
use camera_subsystem.Ipc.Contract.{CameraEndpoint, sub_publisher, subscriber}
use camera_subsystem.Session.{
  SessionRecord, is_role_subscribable, session_or_new, enlist, change_role, withdraw,
  decrement_role_count, increment_role_count,
}

-- At most `b` members, each with a role that may subscribe, and counters that count the roles.
pub record IsKept (b : ℕ) (s : SessionRecord) : Type 0 where
  pub sub_publishers : s.sub_publisher_count ≡ among (λ r. r == sub_publisher) s.members
  pub subscribers : s.subscriber_count ≡ among (λ r. r == subscriber) s.members
  pub known : s.sub_publisher_count + s.subscriber_count ≡ length s.members
  pub bounded : length s.members ≤ b
  pub unique : IsUnique s.members
  pub roles : (c : Bytes) (r : ℕ) → find c s.members ≡ some r → is_role_subscribable r ≡ true

pub IsKept-mono : (b c : ℕ) (s : SessionRecord) → b ≤ c → IsKept b s → IsKept c s
IsKept-mono b c s le v = record {
  sub_publishers = v.sub_publishers;
  subscribers = v.subscribers;
  known = v.known;
  bounded = omega (arith, v.bounded);
  unique = v.unique;
  roles = v.roles;
}

pub IsKept-stream :
    (b : ℕ) (s : SessionRecord) (x : Bool) → IsKept b s → IsKept b (record s { is_streaming = x })
IsKept-stream b s x v = record {
  sub_publishers = v.sub_publishers;
  subscribers = v.subscribers;
  known = v.known;
  bounded = v.bounded;
  unique = v.unique;
  roles = v.roles;
}

pub new-IsKept : (b : ℕ) (e : CameraEndpoint) → IsKept b (session_or_new none e)
new-IsKept b e = record {
  sub_publishers = refl;
  subscribers = refl;
  known = refl;
  bounded = omega arith;
  unique = tt;
  roles = λ c r h. cc;
}

-- The two counters of a session.
abbrev counts : SessionRecord → ℕ × ℕ
counts s = (s.sub_publisher_count, s.subscriber_count)

abbrev pub lowered : SessionRecord → ℕ → ℕ × ℕ
lowered s role = (
  if role == sub_publisher then s.sub_publisher_count - 1 else s.sub_publisher_count,
  if role == subscriber then s.subscriber_count - 1 else s.subscriber_count,
)

decrement_lem :
    (s : SessionRecord) (role : ℕ)
    → decrement_role_count s role
      ≡ record s { sub_publisher_count = (lowered s role).0; subscriber_count = (lowered s role).1 }
unfolding decrement_role_count
decrement_lem s role = ground arith

abbrev pub raised : SessionRecord → ℕ → ℕ × ℕ
raised s role = (
  if role == sub_publisher then s.sub_publisher_count + 1 else s.sub_publisher_count,
  if role == subscriber then s.subscriber_count + 1 else s.subscriber_count,
)

pub increment_lem :
    (s : SessionRecord) (role : ℕ)
    → s.sub_publisher_count + 1 < 2 ^ 32
    → s.subscriber_count + 1 < 2 ^ 32
    → increment_role_count s role
      ≡ record s { sub_publisher_count = (raised s role).0; subscriber_count = (raised s role).1 }
unfolding increment_role_count
increment_lem s role h k = ground arith

-- A new member raises the counter of its role.
pub enlist-IsKept :
    (b : ℕ) (s : SessionRecord) (client : Bytes) (role : ℕ)
    → suc b < 2 ^ 32
    → find client s.members ≡ none
    → is_role_subscribable role ≡ true
    → IsKept b s
    → IsKept (suc b) (enlist s client role)
unfolding enlist is_role_subscribable
enlist-IsKept b s client role small absent ok v = record {
  sub_publishers = ground (
    arith,
    v.sub_publishers,
    v.known,
    v.bounded,
    among-store (λ r. r == sub_publisher) client role s.members,
  );
  subscribers = ground (
    arith,
    v.subscribers,
    v.known,
    v.bounded,
    among-store (λ r. r == subscriber) client role s.members,
  );
  known = ground (arith, v.known, v.bounded, length-store_new client role s.members absent);
  bounded = ground (arith, v.bounded, length-store_new client role s.members absent);
  unique = ground (arith, store-IsUnique client role s.members v.unique);
  roles = λ c r h. ground (arith, v.roles c r, find-store client c role s.members);
}

-- `change_role` and `withdraw` written out.
pub change_role_lem :
    (b : ℕ) (s : SessionRecord) (client : Bytes) (old role : ℕ)
    → suc b < 2 ^ 32
    → IsKept b s
    → let less = lowered s old in
      change_role s client old role ≡ record s {
        members = store client role s.members;
        sub_publisher_count = if role == sub_publisher then less.0 + 1 else less.0;
        subscriber_count = if role == subscriber then less.1 + 1 else less.1;
      }
unfolding change_role
change_role_lem b s client old role small v =
    rw (decrement_lem s old) (
      increment_lem _ role (ground (arith, v.known, v.bounded))
        (ground (arith, v.known, v.bounded)))

pub withdraw_lem :
    (s : SessionRecord) (client : Bytes) (role : ℕ)
    → withdraw s client role ≡ record s {
      members = erase client s.members;
      sub_publisher_count = (lowered s role).0;
      subscriber_count = (lowered s role).1;
    }
unfolding withdraw
withdraw_lem s client role = rw (decrement_lem s role) refl

-- The member that is there weighs one for its role.
module _ (b : ℕ) (s : SessionRecord) (client : Bytes) (old : ℕ)
    (there : find client s.members ≡ some old) (v : IsKept b s) where
  weighs : (t : ℕ) → weight (λ r. r == t) (find client s.members) ≡ (if old == t then 1 else 0)
  weighs t = rw there refl

  known_role : (old ≡ sub_publisher) ⊎ (old ≡ subscriber)
  unfolding is_role_subscribable
  known_role = ground (arith, v.roles client old there)

  -- A member that changes its role moves from one counter to the other.
  pub change_role-IsKept :
      (role : ℕ)
      → suc b < 2 ^ 32
      → is_role_subscribable role ≡ true
      → IsKept b (change_role s client old role)
  unfolding is_role_subscribable
  change_role-IsKept role small ok = rw (change_role_lem b s client old role small v) (record {
    sub_publishers = ground (
      arith,
      v.sub_publishers,
      known_role,
      weighs sub_publisher,
      weight-le-among (λ r. r == sub_publisher) client s.members,
      among-store (λ r. r == sub_publisher) client role s.members,
    );
    subscribers = ground (
      arith,
      v.subscribers,
      known_role,
      weighs subscriber,
      weight-le-among (λ r. r == subscriber) client s.members,
      among-store (λ r. r == subscriber) client role s.members,
    );
    known = ground (
      arith,
      v.known,
      v.sub_publishers,
      v.subscribers,
      known_role,
      weighs sub_publisher,
      weighs subscriber,
      weight-le-among (λ r. r == sub_publisher) client s.members,
      weight-le-among (λ r. r == subscriber) client s.members,
      length-store_old client role old s.members there,
    );
    bounded = ground (arith, v.bounded, length-store_old client role old s.members there);
    unique = store-IsUnique client role s.members v.unique;
    roles = λ c r h. ground (arith, v.roles c r, find-store client c role s.members);
  })

  -- A member that leaves lowers the counter of its role.
  pub withdraw-IsKept : IsKept b (withdraw s client old)
  unfolding is_role_subscribable
  withdraw-IsKept = rw (withdraw_lem s client old) (record {
    sub_publishers = ground (
      arith,
      v.sub_publishers,
      weighs sub_publisher,
      among-erase (λ r. r == sub_publisher) client s.members v.unique,
    );
    subscribers = ground (
      arith,
      v.subscribers,
      weighs subscriber,
      among-erase (λ r. r == subscriber) client s.members v.unique,
    );
    known = ground (
      arith,
      v.known,
      v.sub_publishers,
      v.subscribers,
      known_role,
      weighs sub_publisher,
      weighs subscriber,
      weight-le-among (λ r. r == sub_publisher) client s.members,
      weight-le-among (λ r. r == subscriber) client s.members,
      length-erase_old client old s.members v.unique there,
    );
    bounded = ground (arith, v.bounded, length-erase_old client old s.members v.unique there);
    unique = erase-IsUnique client s.members v.unique;
    roles = λ c r h. ground (arith, v.roles c r, find-erase client c s.members);
  })

-- What the three changes leave alone.
abbrev pub SameStream : SessionRecord → SessionRecord → Type 0
SameStream s t = (t.endpoint ≡ s.endpoint) × (t.is_streaming ≡ s.is_streaming)

is_empty-store : (c : Bytes) (r : ℕ) (m : List (Bytes × ℕ)) → is_empty (store c r m) ≡ false
is_empty-store c r [] = refl
is_empty-store c r ((d, x) ∷ m) = ground arith

increment-stream :
    (s : SessionRecord) (role : ℕ)
    → SameStream s (increment_role_count s role)
      × ((increment_role_count s role).members ≡ s.members)
unfolding increment_role_count
increment-stream s role = ground arith

decrement-stream :
    (s : SessionRecord) (role : ℕ)
    → SameStream s (decrement_role_count s role)
      × ((decrement_role_count s role).members ≡ s.members)
unfolding decrement_role_count
decrement-stream s role = ground arith

pub enlist-shape :
    (s : SessionRecord) (client : Bytes) (role : ℕ)
    → SameStream s (enlist s client role)
      × ((enlist s client role).members ≡ store client role s.members)
      × (is_empty (enlist s client role).members ≡ false)
unfolding enlist
enlist-shape s client role =
    let joined = record s { members = store client role s.members } in
    ground (arith, increment-stream joined role, is_empty-store client role s.members)

pub change_role-shape :
    (s : SessionRecord) (client : Bytes) (old role : ℕ)
    → SameStream s (change_role s client old role)
      × ((change_role s client old role).members ≡ store client role s.members)
      × (is_empty (change_role s client old role).members ≡ false)
unfolding change_role
change_role-shape s client old role =
    let less = decrement_role_count s old in
    let joined = record less { members = store client role less.members } in
    ground (
      arith,
      decrement-stream s old,
      increment-stream joined role,
      is_empty-store client role s.members,
    )

pub withdraw-shape :
    (s : SessionRecord) (client : Bytes) (role : ℕ)
    → SameStream s (withdraw s client role)
      × ((withdraw s client role).members ≡ erase client s.members)
unfolding withdraw
withdraw-shape s client role = ground (arith, decrement-stream s role)
