-- ===== src/Core/Types.antt =====
-- src/core/types.cpp and include/camera_subsystem/core/types.h: the enumerations and their names.
use camera_subsystem.Prelude.{
  ℕ, ◌≡◌, refl, sym, ap, ◌∙◌, Option, none, some, List, [], ◌∷◌, if◌then◌else◌, Bytes, codes,
  bytes_eq, nat_eq, ◌=?◌,
}

pub data PixelFormat : Type 0 where
  unknown nv12 yuyv rgb888 rgba8888 mjpeg h264 h265 format_count : PixelFormat

abbrev pub pixel_format_code : PixelFormat → ℕ
pixel_format_code unknown = 0
pixel_format_code nv12 = 1
pixel_format_code yuyv = 2
pixel_format_code rgb888 = 3
pixel_format_code rgba8888 = 4
pixel_format_code mjpeg = 5
pixel_format_code h264 = 6
pixel_format_code h265 = 7
pixel_format_code format_count = 8

-- A value outside the enumeration, which a cast can make, reads as "Invalid"; it has no constructor.
unfoldable pub pixel_format_to_string : PixelFormat → Bytes
pixel_format_to_string unknown = codes "Unknown"
pixel_format_to_string nv12 = codes "NV12"
pixel_format_to_string yuyv = codes "YUYV"
pixel_format_to_string rgb888 = codes "RGB888"
pixel_format_to_string rgba8888 = codes "RGBA8888"
pixel_format_to_string mjpeg = codes "MJPEG"
pixel_format_to_string h264 = codes "H264"
pixel_format_to_string h265 = codes "H265"
pixel_format_to_string format_count = codes "Count"

pub data MemoryType : Type 0 where
  mmap dma_buf shm heap : MemoryType

unfoldable pub memory_type_to_string : MemoryType → Bytes
memory_type_to_string mmap = codes "Mmap"
memory_type_to_string dma_buf = codes "DmaBuf"
memory_type_to_string shm = codes "SharedMemory"
memory_type_to_string heap = codes "Heap"

pub data IoMethod : Type 0 where
  io_mmap io_dma_buf io_user_ptr : IoMethod

abbrev pub io_method_code : IoMethod → ℕ
io_method_code io_mmap = 0
io_method_code io_dma_buf = 1
io_method_code io_user_ptr = 2

pub data ErrorCode : Type 0 where
  ok error_invalid_argument error_null_pointer error_out_of_range error_invalid_config
        error_device_not_found error_device_busy error_device_disconnected error_permission_denied
        error_device_error error_ioctl_failed error_mmap_failed error_dma_buf_failed
        error_read_failed error_write_failed error_epoll_failed error_memory_alloc
        error_out_of_memory error_resource_exhausted error_buffer_full error_thread_start_failed
        error_thread_join_failed error_timeout error_deadlock error_invalid_state
        error_not_initialized error_already_started error_already_stopped error_not_running
        error_unknown :
      ErrorCode

abbrev pub error_number : ErrorCode → ℕ
error_number ok = 0
error_number error_invalid_argument = 100
error_number error_null_pointer = 101
error_number error_out_of_range = 102
error_number error_invalid_config = 103
error_number error_device_not_found = 200
error_number error_device_busy = 201
error_number error_device_disconnected = 202
error_number error_permission_denied = 203
error_number error_device_error = 204
error_number error_ioctl_failed = 300
error_number error_mmap_failed = 301
error_number error_dma_buf_failed = 302
error_number error_read_failed = 303
error_number error_write_failed = 304
error_number error_epoll_failed = 305
error_number error_memory_alloc = 400
error_number error_out_of_memory = 401
error_number error_resource_exhausted = 402
error_number error_buffer_full = 403
error_number error_thread_start_failed = 500
error_number error_thread_join_failed = 501
error_number error_timeout = 502
error_number error_deadlock = 503
error_number error_invalid_state = 600
error_number error_not_initialized = 601
error_number error_already_started = 602
error_number error_already_stopped = 603
error_number error_not_running = 604
error_number error_unknown = 999

unfoldable pub get_error_string : ErrorCode → Bytes
get_error_string ok = codes "Success"
get_error_string error_invalid_argument = codes "Invalid argument"
get_error_string error_null_pointer = codes "Null pointer"
get_error_string error_out_of_range = codes "Out of range"
get_error_string error_invalid_config = codes "Invalid configuration"
get_error_string error_device_not_found = codes "Device not found"
get_error_string error_device_busy = codes "Device busy"
get_error_string error_device_disconnected = codes "Device disconnected"
get_error_string error_permission_denied = codes "Permission denied"
get_error_string error_device_error = codes "Device error"
get_error_string error_ioctl_failed = codes "Ioctl failed"
get_error_string error_mmap_failed = codes "Mmap failed"
get_error_string error_dma_buf_failed = codes "DmaBuf failed"
get_error_string error_read_failed = codes "Read failed"
get_error_string error_write_failed = codes "Write failed"
get_error_string error_epoll_failed = codes "Epoll failed"
get_error_string error_memory_alloc = codes "Memory allocation failed"
get_error_string error_out_of_memory = codes "Out of memory"
get_error_string error_resource_exhausted = codes "Resource exhausted"
get_error_string error_buffer_full = codes "Buffer full"
get_error_string error_thread_start_failed = codes "Thread start failed"
get_error_string error_thread_join_failed = codes "Thread join failed"
get_error_string error_timeout = codes "Timeout"
get_error_string error_deadlock = codes "Deadlock detected"
get_error_string error_invalid_state = codes "Invalid state"
get_error_string error_not_initialized = codes "Not initialized"
get_error_string error_already_started = codes "Already started"
get_error_string error_already_stopped = codes "Already stopped"
get_error_string error_not_running = codes "Not running"
get_error_string error_unknown = codes "Unknown error"

-- Every error code, in the order of the enumeration.
abbrev error_codes : List ErrorCode
error_codes =
    ok ∷ error_invalid_argument ∷ error_null_pointer ∷ error_out_of_range ∷ error_invalid_config
    ∷ error_device_not_found ∷ error_device_busy ∷ error_device_disconnected
    ∷ error_permission_denied ∷ error_device_error ∷ error_ioctl_failed ∷ error_mmap_failed
    ∷ error_dma_buf_failed ∷ error_read_failed ∷ error_write_failed ∷ error_epoll_failed
    ∷ error_memory_alloc ∷ error_out_of_memory ∷ error_resource_exhausted ∷ error_buffer_full
    ∷ error_thread_start_failed ∷ error_thread_join_failed ∷ error_timeout ∷ error_deadlock
    ∷ error_invalid_state ∷ error_not_initialized ∷ error_already_started ∷ error_already_stopped
    ∷ error_not_running ∷ error_unknown ∷ []

-- The first code of a list with the given text.
abbrev code_with : Bytes → List ErrorCode → Option ErrorCode
code_with text [] = none
code_with text (c ∷ cs) = if get_error_string c =? text then some c else code_with text cs

code_with-string : (c : ErrorCode) → code_with (get_error_string c) error_codes ≡ some c
unfolding get_error_string
code_with-string ok = refl
code_with-string error_invalid_argument = refl
code_with-string error_null_pointer = refl
code_with-string error_out_of_range = refl
code_with-string error_invalid_config = refl
code_with-string error_device_not_found = refl
code_with-string error_device_busy = refl
code_with-string error_device_disconnected = refl
code_with-string error_permission_denied = refl
code_with-string error_device_error = refl
code_with-string error_ioctl_failed = refl
code_with-string error_mmap_failed = refl
code_with-string error_dma_buf_failed = refl
code_with-string error_read_failed = refl
code_with-string error_write_failed = refl
code_with-string error_epoll_failed = refl
code_with-string error_memory_alloc = refl
code_with-string error_out_of_memory = refl
code_with-string error_resource_exhausted = refl
code_with-string error_buffer_full = refl
code_with-string error_thread_start_failed = refl
code_with-string error_thread_join_failed = refl
code_with-string error_timeout = refl
code_with-string error_deadlock = refl
code_with-string error_invalid_state = refl
code_with-string error_not_initialized = refl
code_with-string error_already_started = refl
code_with-string error_already_stopped = refl
code_with-string error_not_running = refl
code_with-string error_unknown = refl

-- GetErrorString tells the codes apart: two codes with the same text are the same code.
get_error_string-injective : (a b : ErrorCode) → get_error_string a ≡ get_error_string b → a ≡ b
get_error_string-injective a b same =
    some_same
      (sym (code_with-string a) ∙ ap (λ t. code_with t error_codes) same ∙ code_with-string b)
  where
    some_same : some a ≡ some b → a ≡ b
    some_same h = cc
