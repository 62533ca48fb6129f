-- ===== src/Core/Words.antt =====
-- The fixed-width unsigned integers of the sources: uint32_t and uint64_t wrap.
use camera_subsystem.Prelude.{ℕ, ◌%◌, ◌^◌}

abbrev pub u32 : ℕ → ℕ
u32 n = n % 2 ^ 32

abbrev pub u64 : ℕ → ℕ
u64 n = n % 2 ^ 64
