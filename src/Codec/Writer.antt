-- ===== src/Codec/Writer.antt =====
-- extensions/codec_server/src/recording_file_writer.cpp.
use camera_subsystem.Prelude.{
  ℕ, zero, suc, ◌+◌, Bool, true, false, not, ◌||◌, Option, none, some, [], ◌∷◌, ◌++◌, ltb, leb,
  ◌==◌, if◌then◌else◌, length, Bytes, codes, is_empty, bytes_eq, nat_eq,
}
use camera_subsystem.Core.Words.{u64}

pub data WriterResult : Type 0 where
  ok output_dir_not_writable file_create_failed invalid_stream_id : WriterResult
  file_not_open recording_io_error : WriterResult

pub record WriterStats : Type 0 where
  pub bytes_written : ℕ
  pub packets_written : ℕ
  pub write_failures : ℕ

abbrev pub no_stats : WriterStats
no_stats = record { bytes_written = 0; packets_written = 0; write_failures = 0 }

-- The handle is one that `fopen` gave, or none; what is written to the file is not kept.
pub record Writer : Type 0 where
  pub handle : Option ℕ
  pub file_path : Bytes
  pub is_open : Bool
  pub stats : WriterStats

abbrev pub new_writer : Writer
new_writer = record { handle = none; file_path = []; is_open = false; stats = no_stats }

-- What the system answers to Open: `fs::exists` for each path, and whether it throws
-- when it is asked without an error code, the `fopen` of the test file,
-- whether `create_directories` works, the text that `strftime` gives, `std::to_string`, PATH_MAX,
-- the `fopen` of the recording; and the `fflush` and `fsync` of the file that was open before.
pub record Disk : Type 0 where
  pub exists : Bytes → Bool
  pub throws : Bytes → Bool
  pub test_file_opens : Bool
  pub directories_created : Bool
  pub timestamp : Bytes
  pub to_string : ℕ → Bytes
  pub path_max : ℕ
  pub opened : Option ℕ
  pub flushed : Bool
  pub synced : Bool

abbrev pub is_bad_char : ℕ → Bool
is_bad_char c = c == 47 || c == 92 || c == 0

abbrev pub has_bad_char : Bytes → Bool
has_bad_char [] = false
has_bad_char (c ∷ cs) = is_bad_char c || has_bad_char cs

unfoldable pub validate_stream_id : Bytes → WriterResult
validate_stream_id id =
    if is_empty id
    then invalid_stream_id
    else (if ltb 128 (length id)
        then invalid_stream_id
        else (if has_bad_char id then invalid_stream_id else ok))

-- The name without its ending ".h264".
abbrev pub base_name : Bytes → Bytes → Bytes
base_name id timestamp = id ++ codes "_" ++ timestamp

unfoldable pub generate_file_name : Bytes → Bytes → Bytes
generate_file_name id timestamp = base_name id timestamp ++ codes ".h264"

unfoldable pub ensure_output_dir : Disk → Bytes → WriterResult
ensure_output_dir d dir =
    if d.exists dir
    then (if d.test_file_opens then ok else output_dir_not_writable)
    else (if d.directories_created then ok else output_dir_not_writable)

abbrev pub count_failure : Writer → Writer
count_failure w = record w {
  stats = record (w.stats) { write_failures = u64 (w.stats.write_failures + 1) };
}

-- With the answers of `fflush` and `fsync`.
unfoldable pub do_flush : Writer → Bool → Bool → Writer × WriterResult
do_flush w flushed synced =
    if not flushed
    then (count_failure w, recording_io_error)
    else (if not synced then (count_failure w, recording_io_error) else (w, ok))

unfoldable pub close_handle : Writer → Writer
close_handle w = record w { handle = none; is_open = false }

unfoldable pub close : Writer → Bool → Bool → Writer × WriterResult
close w flushed synced =
    if not w.is_open
    then (w, ok)
    else (let (w', result) = do_flush w flushed synced in (close_handle w', result))

unfoldable pub flush : Writer → Bool → Bool → Writer × WriterResult
flush w flushed synced = if not w.is_open then (w, file_not_open) else do_flush w flushed synced

abbrev pub path_in : Bytes → Bytes → Bytes
path_in dir name = dir ++ codes "/" ++ name

-- The name that round `n` of the conflict loop tries.
abbrev pub candidate : Disk → Bytes → Bytes → ℕ → Bytes
candidate d dir base n = path_in dir (base ++ codes "_" ++ d.to_string n ++ codes ".h264")

-- The greatest `int`, of 32 bits.
abbrev pub int_max : ℕ
int_max = 2147483647

-- The loop `for (int n = 2; ; ++n)`, for at most `rounds` rounds. Beyond `int_max` the counter
-- overflows, which C++ leaves undefined; here the loop then gives no path, nor when `fs::exists`
-- throws.
abbrev pub free_from : (Bytes → Bool) → (Bytes → Bool) → (ℕ → Bytes) → ℕ → ℕ → Option Bytes
free_from throws exists names zero n = none
free_from throws exists names (suc rounds) n =
    let later = free_from throws exists names rounds (suc n) in
    if ltb int_max n || throws (names n)
    then none
    else (if exists (names n) then later else some (names n))

-- The path that Open settles on; none when the rounds do not do, the counter
-- overflows or an exception ends Open.
unfoldable pub free_path : Disk → ℕ → Bytes → Bytes → Option Bytes
unfolding generate_file_name
free_path d rounds id dir =
    let full_path = path_in dir (generate_file_name id d.timestamp) in
    if d.throws full_path
    then none
    else (if d.exists full_path
        then free_from d.throws d.exists (candidate d dir (base_name id d.timestamp)) rounds 2
        else some full_path)

abbrev pub reset_stats : Writer → Writer
reset_stats w = record w { stats = no_stats }

-- Open from `fopen` on.
abbrev pub create : Writer → Bytes → Option ℕ → Writer × WriterResult
create w path none = (record w { handle = none }, file_create_failed)
create w path (some h) =
    (reset_stats (record w { handle = some h; file_path = path; is_open = true }), ok)

abbrev pub open_at : Writer → Disk → Option Bytes → Option (Writer × WriterResult)
open_at w d none = none
open_at w d (some path) =
    some (if leb d.path_max (length path) then (w, file_create_failed) else create w path d.opened)

-- A check that stops Open when it is not ok.
abbrev pub unless_ok :
    Writer → WriterResult → Option (Writer × WriterResult) → Option (Writer × WriterResult)
unless_ok w ok next = next
unless_ok w bad next = some (w, bad)

-- The writer closes the file that is open first; none when no path is found.
unfoldable pub open_file : ℕ → Writer → Bytes → Bytes → Disk → Option (Writer × WriterResult)
open_file rounds w id dir d =
    let w0 = if w.is_open then (close w d.flushed d.synced).0 else w in
    unless_ok w0 (validate_stream_id id)
      (unless_ok w0 (ensure_output_dir d dir) (open_at w0 d (free_path d rounds id dir)))

-- With the count that `fwrite` gives for `size` bytes.
unfoldable pub write : Writer → ℕ → ℕ → Writer × WriterResult
write w size written =
    if not w.is_open
    then (w, file_not_open)
    else (if size == 0
        then (w, ok)
        else (if not (written == size) then (count_failure w, recording_io_error) else (
          record w {
            stats = record (w.stats) {
              bytes_written = u64 (w.stats.bytes_written + size);
              packets_written = u64 (w.stats.packets_written + 1);
            };
          },
          ok,
        )))

-- The move constructor: the new writer, and what is left of the old one.
unfoldable pub move_writer : Writer → Writer × Writer
move_writer w = (w, record w { handle = none; is_open = false; file_path = [] })

-- Move assignment between two different writers.
unfoldable pub assign_writer : Writer → Writer → Bool → Bool → Writer × Writer
assign_writer w other flushed synced =
    let closed = (close w flushed synced).0 in
    (
      record closed {
        handle = other.handle;
        file_path = other.file_path;
        is_open = other.is_open;
        stats = other.stats;
      },
      record other { handle = none; is_open = false; file_path = [] },
    )
