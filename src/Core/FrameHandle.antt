-- ===== src/Core/FrameHandle.antt =====
-- src/core/frame_handle.cpp. A pointer is an address or none, a file descriptor below zero is none,
-- and an array of three is read through `at`, where an index out of range gives none.
use camera_subsystem.Prelude.{
  ℕ, zero, suc, ◌+◌, ◌<◌, ◌≡◌, refl, ap, inl, inr, Bool, true, false, not, ◌&&◌, ◌||◌, Option, none,
  some, arith, ltb, leb, if◌then◌else◌, Bool-cases, bytes_eq, nat_eq,
}
use camera_subsystem.Core.Types.{PixelFormat, unknown, MemoryType, mmap}
use camera_subsystem.Core.CameraConfig.{is_unknown}

pub record Three {ℓ} (A : Type ℓ) : Type ℓ where
  pub first : A
  pub second : A
  pub third : A

module _ {ℓ} {A : Type ℓ} where
  abbrev pub all_three : A → Three A
  all_three a = record { first = a; second = a; third = a }

  abbrev pub at : Three A → ℕ → Option A
  at t zero = some t.first
  at t (suc zero) = some t.second
  at t (suc (suc zero)) = some t.third
  at t (suc (suc (suc i))) = none

  pub at-defined : (t : Three A) (i : ℕ) → i < 3 → (a : A) × (at t i ≡ some a)
  at-defined t zero h = (t.first, refl)
  at-defined t (suc zero) h = (t.second, refl)
  at-defined t (suc (suc zero)) h = (t.third, refl)
  at-defined t (suc (suc (suc i))) h = absurd (omega (arith, h))

pub record FrameHandle : Type 0 where
  pub frame_id : ℕ
  pub camera_id : ℕ
  pub timestamp_ns : ℕ
  pub width : ℕ
  pub height : ℕ
  pub format : PixelFormat
  pub plane_count : ℕ
  pub line_stride : Three ℕ
  pub plane_offset : Three ℕ
  pub plane_size : Three ℕ
  pub memory_type : MemoryType
  pub buffer_fd : Option ℕ
  pub virtual_address : Option ℕ
  pub buffer_size : ℕ
  pub sequence : ℕ
  pub flags : ℕ

abbrev pub new_handle : FrameHandle
new_handle = record {
  frame_id = 0;
  camera_id = 0;
  timestamp_ns = 0;
  width = 0;
  height = 0;
  format = unknown;
  plane_count = 0;
  line_stride = all_three 0;
  plane_offset = all_three 0;
  plane_size = all_three 0;
  memory_type = mmap;
  buffer_fd = none;
  virtual_address = none;
  buffer_size = 0;
  sequence = 0;
  flags = 0;
}

-- What a read yields: null, a value, or a read outside the array.
pub data Read : Type 0 where
  null out_of_bounds : Read
  got : ℕ → Read

abbrev pub is_null : Option ℕ → Bool
is_null none = true
is_null (some a) = false

abbrev pub read : Option ℕ → Read
read none = out_of_bounds
read (some n) = got n

abbrev pub shifted : Option ℕ → Read → Read
shifted none r = null
shifted (some base) null = null
shifted (some base) out_of_bounds = out_of_bounds
shifted (some base) (got n) = got (base + n)

unfoldable pub get_plane_data : FrameHandle → ℕ → Read
get_plane_data h i =
    if leb h.plane_count i || is_null h.virtual_address
    then null
    else shifted h.virtual_address (read (at h.plane_offset i))

unfoldable pub get_plane_size : FrameHandle → ℕ → Read
get_plane_size h i = if leb h.plane_count i then got 0 else read (at h.plane_size i)

unfoldable pub is_valid : FrameHandle → Bool
is_valid h =
    ltb 0 h.width
    && ltb 0 h.height
    && not (is_unknown h.format)
    && ltb 0 h.plane_count
    && leb h.plane_count 3
    && ltb 0 h.buffer_size
    && (not (is_null h.virtual_address) || not (is_null h.buffer_fd))

unfoldable pub reset : FrameHandle → FrameHandle
reset h = record h {
  frame_id = 0;
  camera_id = 0;
  timestamp_ns = 0;
  width = 0;
  height = 0;
  format = unknown;
  plane_count = 0;
  line_stride = all_three 0;
  plane_offset = all_three 0;
  plane_size = all_three 0;
  memory_type = mmap;
  buffer_fd = none;
  virtual_address = none;
  buffer_size = 0;
  sequence = 0;
  flags = 0;
}

read-at : (t : Three ℕ) (i : ℕ) → i < 3 → (n : ℕ) × (read (at t i) ≡ got n)
read-at t i h = let (n, e) = at-defined t i h in (n, ap read e)

abbrev pub in_bounds : Read → Bool
in_bounds out_of_bounds = false
in_bounds _ = true

shifted-in_bounds :
    (base : Option ℕ) (r : Read)
    → in_bounds r ≡ true
    → in_bounds (if is_null base then null else shifted base r) ≡ true
shifted-in_bounds none r h = refl
shifted-in_bounds (some b) null h = refl
shifted-in_bounds (some b) out_of_bounds h = h
shifted-in_bounds (some b) (got n) h = refl

-- In a valid handle, neither GetPlaneData nor GetPlaneSize reads outside its array, whatever the
-- plane index is.
pub plane_reads_in_bounds :
    (h : FrameHandle) (i : ℕ)
    → is_valid h ≡ true
    → (in_bounds (get_plane_data h i) ≡ true) × (in_bounds (get_plane_size h i) ≡ true)
unfolding is_valid get_plane_data get_plane_size
plane_reads_in_bounds h i valid = elim (Bool-cases (leb h.plane_count i)) [
  | inl beyond ↦ rw beyond (refl, refl)
  | inr inside ↦
      let small : i < 3 = ground (arith, valid) in
      let (o, offset) = read-at h.plane_offset i small in
      let (n, size) = read-at h.plane_size i small in
      rw inside (shifted-in_bounds h.virtual_address _ (ap in_bounds offset), ap in_bounds size)
]
