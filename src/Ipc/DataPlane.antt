-- ===== src/Ipc/DataPlane.antt =====
-- src/ipc/camera_data_plane_v2.cpp: the frame descriptors that go over the data socket with their
-- file descriptors. Reserved bytes are zero and left out. What `recvmsg` delivers is an argument.
use camera_subsystem.Prelude.{
  ℕ, zero, suc, ◌+◌, ◌<◌, min, ◌≡◌, refl, Bool, true, false, not, ◌&&◌, ◌||◌, Option, none, some,
  List, [], ◌∷◌, ◌++◌, arith, ltb, leb, ◌==◌, if◌then◌else◌, length, count, count-append, bytes_eq,
  nat_eq,
}
use camera_subsystem.Core.Types.{MemoryType, mmap, dma_buf, shm, heap, pixel_format_code}
use camera_subsystem.Core.FrameHandle.{Three, at, is_null}
use camera_subsystem.Core.FrameDescriptor.{
  max_frame_planes, max_frame_fds, FramePlaneDescriptor, FrameDescriptor, each_below,
}

abbrev pub data_magic : ℕ
data_magic = 0x43445632

abbrev pub data_version : ℕ
data_version = 2

-- sizeof(CameraDataFrameDescriptorV2), with the padding before `total_bytes_used` and at the end.
abbrev pub descriptor_size : ℕ
descriptor_size = 216

-- CameraDataPlaneDescriptorV2 has the fields of FramePlaneDescriptor.
abbrev pub no_plane : FramePlaneDescriptor
no_plane = record { fd_index = 0; offset = 0; stride = 0; length = 0; bytes_used = 0 }

pub record DataDescriptor : Type 0 where
  pub magic : ℕ
  pub version : ℕ
  pub header_size : ℕ
  pub stream_id : ℕ
  pub frame_id : ℕ
  pub buffer_id : ℕ
  pub consumer_id : ℕ
  pub timestamp_ns : ℕ
  pub sequence : ℕ
  pub width : ℕ
  pub height : ℕ
  pub pixel_format : ℕ
  pub memory_type : ℕ
  pub plane_count : ℕ
  pub fd_count : ℕ
  pub total_bytes_used : ℕ
  pub flags : ℕ
  pub planes : Three FramePlaneDescriptor

unfoldable pub to_data_memory_type : MemoryType → ℕ
to_data_memory_type dma_buf = 1
to_data_memory_type shm = 3
to_data_memory_type mmap = 2
to_data_memory_type heap = 2

-- The first `n` planes; the rest is zero.
abbrev pub copy_planes : ℕ → Three FramePlaneDescriptor → Three FramePlaneDescriptor
copy_planes n p = record {
  first = if ltb 0 n then p.first else no_plane;
  second = if ltb 1 n then p.second else no_plane;
  third = if ltb 2 n then p.third else no_plane;
}

unfoldable pub make_data_descriptor : FrameDescriptor → DataDescriptor
unfolding to_data_memory_type
make_data_descriptor d = record {
  magic = data_magic;
  version = data_version;
  header_size = descriptor_size;
  stream_id = d.camera_id;
  frame_id = d.frame_id;
  buffer_id = d.buffer_id;
  consumer_id = 0;
  timestamp_ns = d.timestamp_ns;
  sequence = d.sequence;
  width = d.width;
  height = d.height;
  pixel_format = pixel_format_code d.pixel_format;
  memory_type = to_data_memory_type d.memory_type;
  plane_count = d.plane_count;
  fd_count = d.fd_count;
  total_bytes_used = d.total_bytes_used;
  flags = d.flags;
  planes = copy_planes (min d.plane_count max_frame_planes) d.planes;
}

abbrev pub data_plane_ok : ℕ → Option FramePlaneDescriptor → Bool
data_plane_ok fd_count none = false
data_plane_ok fd_count (some p) =
    ltb p.fd_index fd_count && not (p.length == 0) && leb p.bytes_used p.length

unfoldable pub is_data_descriptor_valid : DataDescriptor → Bool
is_data_descriptor_valid d =
    if not (d.magic == data_magic)
      || not (d.version == data_version)
      || not (d.header_size == descriptor_size)
      || d.width == 0
      || d.height == 0
      || d.plane_count == 0
      || ltb max_frame_planes d.plane_count
      || d.fd_count == 0
      || ltb max_frame_fds d.fd_count
      || d.total_bytes_used == 0
    then false
    else each_below d.plane_count (λ i. data_plane_ok d.fd_count (at d.planes i))

-- The numbers of a list are the fds a caller passes; one below zero is none.
abbrev pub every_fd : List (Option ℕ) → Bool
every_fd [] = true
every_fd (fd ∷ fds) = not (is_null fd) && every_fd fds

unfoldable pub is_valid_fd_list : List (Option ℕ) → Bool
is_valid_fd_list fds = not (length fds == 0) && leb (length fds) max_frame_fds && every_fd fds

-- SendCameraDataFrameDescriptorV2: whether it calls `sendmsg`, and with how many bytes sent it
-- reports success. The socket is none when it is below zero.
unfoldable pub send_data_descriptor :
    Option ℕ → DataDescriptor → List (Option ℕ) → (DataDescriptor → List (Option ℕ) → ℕ) → Bool
unfolding is_data_descriptor_valid is_valid_fd_list
send_data_descriptor socket d fds sendmsg =
    if is_null socket
      || not (is_data_descriptor_valid d)
      || not (is_valid_fd_list fds)
      || not (length fds == d.fd_count)
    then false
    else sendmsg d fds == descriptor_size

-- What `recvmsg` delivers: the bytes received, the descriptor they make, and the file descriptors
-- of the first SCM_RIGHTS message, if there is one.
pub record Delivery : Type 0 where
  pub received : ℕ
  pub descriptor : DataDescriptor
  pub rights : Option (List ℕ)

abbrev pub fds_of : Option (List ℕ) → List ℕ
fds_of none = []
fds_of (some fds) = fds

abbrev pub take : ℕ → List ℕ → List ℕ
take zero xs = []
take (suc n) [] = []
take (suc n) (x ∷ xs) = x ∷ take n xs

abbrev pub drop : ℕ → List ℕ → List ℕ
drop zero xs = xs
drop (suc n) [] = []
drop (suc n) (x ∷ xs) = drop n xs

-- What the caller gets and what was closed.
pub record Reception : Type 0 where
  pub success : Bool
  pub kept : List ℕ
  pub closed : List ℕ

-- The end of ReceiveCameraDataFrameDescriptorV2, with its test `valid` made.
abbrev pub hand_over : Bool → List ℕ → List ℕ → Reception
hand_over true copied extra = record { success = true; kept = copied; closed = extra }
hand_over false copied extra = record { success = false; kept = []; closed = extra ++ copied }

abbrev pub refused : Reception
refused = record { success = false; kept = []; closed = [] }

unfoldable pub receive_data_descriptor : Option ℕ → ℕ → Delivery → Reception
unfolding is_data_descriptor_valid
receive_data_descriptor socket max_fd_count m =
    if is_null socket || max_fd_count == 0
    then refused
    else (if not (m.received == descriptor_size)
        then refused
        else (let fds = fds_of m.rights in
            let copied = take max_fd_count fds in
            hand_over
              (is_data_descriptor_valid m.descriptor
                && length fds == m.descriptor.fd_count
                && length copied == m.descriptor.fd_count)
              copied (drop max_fd_count fds)))

take-drop :
    (n : ℕ) (xs : List ℕ) (fd : ℕ) → count fd (take n xs) + count fd (drop n xs) ≡ count fd xs
take-drop zero xs fd = omega arith
take-drop (suc n) [] fd = omega arith
take-drop (suc n) (x ∷ xs) fd = omega (arith, take-drop n xs fd)

length-take-drop : (n : ℕ) (xs : List ℕ) → length (take n xs) + length (drop n xs) ≡ length xs
length-take-drop zero xs = omega arith
length-take-drop (suc n) [] = omega arith
length-take-drop (suc n) (x ∷ xs) = omega (arith, length-take-drop n xs)

hand_over_lem :
    (valid : Bool) (fds : List ℕ) (n fd_count fd : ℕ)
    → (valid ≡ true → (length fds ≡ fd_count) × (length (take n fds) ≡ fd_count))
    → let r = hand_over valid (take n fds) (drop n fds) in
      (count fd r.kept + count fd r.closed ≡ count fd fds)
      × (length r.kept ≡ (if r.success then fd_count else 0))
      × ((if r.success then length r.closed else 0) ≡ 0)
hand_over_lem true fds n fd_count fd agree =
    let sizes = agree refl in
    (take-drop n fds fd, sizes.1, omega (arith, length-take-drop n fds, sizes.0, sizes.1))
hand_over_lem false fds n fd_count fd agree =
    (omega (arith, count-append fd (drop n fds) (take n fds), take-drop n fds fd), refl, refl)

-- Of a whole message, each file descriptor that the kernel delivers is either handed to the caller
-- or closed, once; on success the caller gets as many as the descriptor says and none is closed; on
-- failure the caller gets none.
pub received_fds_accounted :
    (socket max_fd_count : ℕ) (m : Delivery) (fd : ℕ)
    → m.received ≡ descriptor_size
    → 0 < max_fd_count
    → let r = receive_data_descriptor (some socket) max_fd_count m in
      (count fd r.kept + count fd r.closed ≡ count fd (fds_of m.rights))
      × (length r.kept ≡ (if r.success then m.descriptor.fd_count else 0))
      × ((if r.success then length r.closed else 0) ≡ 0)
unfolding receive_data_descriptor
received_fds_accounted socket max_fd_count m fd whole room =
    let open_socket : (max_fd_count == 0) ≡ false = ground arith in
    let complete : (m.received == descriptor_size) ≡ true = ground (arith, whole) in
    rw (open_socket, complete)
      (hand_over_lem _ (fds_of m.rights) max_fd_count m.descriptor.fd_count fd
        (λ e. ground (arith, e)))
