-- ===== src/Ipc/Contract.antt =====
-- include/camera_subsystem/ipc/camera_channel_contract.h. The enumerations have uint32_t behind
-- them and arrive over a socket, so they are their codes; `reserved` bytes are left out.
use camera_subsystem.Prelude.{
  ℕ, Bool, true, not, [], ◌∷◌, ◌==◌, if◌then◌else◌, Bytes, codes, padded, is_empty,
}

-- CameraClientRole.
abbrev pub core_publisher : ℕ
core_publisher = 0

abbrev pub sub_publisher : ℕ
sub_publisher = 1

abbrev pub subscriber : ℕ
subscriber = 2

-- CameraBusType.
abbrev pub default_bus : ℕ
default_bus = 0

abbrev pub device_path_max : ℕ
device_path_max = 128

-- CAMERA_SUBSYSTEM_DEFAULT_CAMERA, when the build does not set it.
abbrev pub default_camera : Bytes
default_camera = codes "/dev/video0"

pub record CameraEndpoint : Type 0 where
  pub camera_id : ℕ
  pub bus_type : ℕ
  pub bus_index : ℕ
  pub device_path : Bytes

-- A null path reads as an empty one.
unfoldable pub make_camera_endpoint : ℕ → ℕ → ℕ → Bytes → CameraEndpoint
make_camera_endpoint camera_id bus_type bus_index path = record {
  camera_id = camera_id;
  bus_type = bus_type;
  bus_index = bus_index;
  device_path = padded device_path_max (if is_empty path then default_camera else path);
}

unfoldable pub make_default_camera_endpoint : ℕ → CameraEndpoint
make_default_camera_endpoint camera_id = record {
  camera_id = camera_id;
  bus_type = default_bus;
  bus_index = 0;
  device_path = padded device_path_max default_camera;
}

-- Whether a char array holds the empty string.
abbrev pub starts_nul : Bytes → Bool
starts_nul [] = true
starts_nul (b ∷ bs) = b == 0

unfoldable pub is_endpoint_valid : CameraEndpoint → Bool
is_endpoint_valid e = not (starts_nul e.device_path)
