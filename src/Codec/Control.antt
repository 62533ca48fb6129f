-- ===== src/Codec/Control.antt =====
-- The client loop of extensions/codec_server/src/codec_control_server.cpp, on top of the protocol and
-- of the recording sessions: bytes of a connection in, status lines out.
pub mod Safety
use camera_subsystem.Codec.Protocol.{
  start_command, stop_command, status_command, unknown_command, accepted, rejected,
}
use camera_subsystem.Prelude.{
  ℕ, zero, suc, ◌+◌, ◌-◌, ◌*◌, ◌/◌, ◌%◌, ◌^◌, ◌≤◌, ◌<◌, min, max, ◌≡◌, refl, sym, ap, subst, ◌∙◌,
  ◌≢◌, ◌↔◌, ◌⊎◌, inl, inr, Bool, true, false, not, ◌&&◌, ◌||◌, Option, none, some, List, [], ◌∷◌,
  ◌++◌, map, arith, dec_lt, ℕ_discrete, ltb, leb, ◌==◌, if◌then◌else◌, ==_iff, Bool-cases,
  Option-cases, length, get_elem?, set, tally, keep, length-append, length-set, get_elem?-set,
  get_elem?-lt, tally-append, tally-set, tally-le-length, count, count-append, tally_pos,
  get_elem?-snoc, tally_two, tally-eq-zero, Bytes, codes, c_str, padded, is_empty, bytes_same,
  bytes_same_iff, bytes_eq, nat_eq, Eq, ◌=?◌, find, store, erase, find-store, find-erase, IsUnique,
  store-IsUnique, erase-IsUnique, erase_absent, among, weight, among-store, among-erase,
  weight-le-among, among-le-length, length-store-le, length-erase-le, length-store_new,
  length-store_old, length-erase_old, find-store-store, find-erase-store, Every, Every-find,
  Every-store, Every-erase,
}
use camera_subsystem.Codec.Writer.{Disk}
use camera_subsystem.Codec.Session.{
  no_profile, Request, Status, Recorder, build_status, start_recording, stop_recording,
}
use camera_subsystem.Codec.Protocol.{
  Command, Parsed, accepted, rejected, parse_request_line, serialize_status,
}

-- A CodecControlRequest as it is constructed.
abbrev pub new_request : Request
new_request = record {
  request_id = [];
  stream_id = [];
  codec = codes "h264";
  container = codes "raw_h264";
  output_dir = [];
  profile = no_profile;
}

unfoldable pub make_error_status : Request → Bytes → Status
make_error_status q error_text = record {
  request_id = q.request_id;
  stream_id = q.stream_id;
  recording = false;
  state = codes "error";
  codec = codes "h264";
  container = codes "raw_h264";
  file = [];
  encoded_frames = 0;
  decoded_frames = 0;
  dropped_frames = 0;
  input_frames = 0;
  decode_failures = 0;
  write_failures = 0;
  error = error_text;
  profile = no_profile;
}

-- What the system answers while a request is handled: to the writer and the subscriber, to `fflush`
-- and `fsync`, to `strtoul`, to the printing of numbers, and to the write of the response.
pub record RequestAnswers : Type 0 where
  pub rounds : ℕ
  pub disk : Disk
  pub subscribes : Bool
  pub flushed : Bool
  pub synced : Bool
  pub strtoul : Bytes → Option ℕ
  pub to_string : ℕ → Bytes
  pub responds : Bool

abbrev pub with_status : Request → Recorder × Bytes → Recorder × Status
with_status q (r, text) = (r, build_status r q text)

abbrev pub status_of : Request → Option (Recorder × Bytes) → Option (Recorder × Status)
status_of q none = none
status_of q (some out) = some (with_status q out)

-- HandleRequest.
unfoldable pub handle_request :
    Recorder → Command → Request → RequestAnswers → Option (Recorder × Status)
handle_request r start_command q a =
    status_of q (start_recording a.rounds r q a.disk a.subscribes a.flushed a.synced)
handle_request r stop_command q a = some (with_status q (stop_recording r a.flushed a.synced))
handle_request r status_command q a = some (r, build_status r q [])
handle_request r unknown_command q a = some (r, make_error_status q (codes "unknown_command"))

abbrev pub handle_parsed : Recorder → Parsed → RequestAnswers → Option (Recorder × Status)
handle_parsed r (accepted c q) a = handle_request r c q a
handle_parsed r (rejected text) a = some (r, make_error_status new_request text)

-- A connection: the line so far, the responses (the last one first), and whether the loop goes on;
-- with the recorder that all connections share.
pub record Connection : Type 0 where
  pub line : Bytes
  pub responses : List Bytes
  pub is_alive : Bool
  pub recorder : Recorder

abbrev pub new_connection : Recorder → Connection
new_connection r = record { line = []; responses = []; is_alive = true; recorder = r }

abbrev pub response : RequestAnswers → Status → Bytes
response a status = serialize_status a.to_string status ++ codes "\n"

abbrev pub answered : Connection → RequestAnswers → Option (Recorder × Status) → Option Connection
answered c a none = none
answered c a (some (r, status)) = some (record c {
  line = if a.responds then [] else c.line;
  responses = response a status ∷ c.responses;
  is_alive = a.responds;
  recorder = r;
})

abbrev pub line_max : ℕ
line_max = 65536

-- A turn of ClientLoop that reads `ch`; none when a start needs more rounds for a file name.
unfoldable pub read_char : Connection → ℕ → RequestAnswers → Option Connection
read_char c ch a =
    let handled = handle_parsed c.recorder (parse_request_line a.strtoul c.line) a in
    let too_large = make_error_status new_request (codes "request_too_large") in
    if ch == 10
    then answered c a handled
    else (if leb line_max (length c.line)
        then some (record c { line = []; responses = response a too_large ∷ c.responses })
        else some (record c { line = c.line ++ ch ∷ [] }))
