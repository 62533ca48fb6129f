-- ===== src/Tests/CodecTests.antt =====
-- Tests of the codec server (extensions/codec_server/src), and its theorems at concrete inputs.
use camera_subsystem.Prelude.{
  ℕ, zero, suc, ◌+◌, ◌≤◌, ◌≡◌, refl, sym, ap, subst, ◌∙◌, inl, inr, true, false, Option, none, some,
  List, [], ◌∷◌, arith, Option-cases, length, Bytes, codes, bytes_eq, nat_eq,
}
use camera_subsystem.Codec.Session.{
  handle_input_frame, start_recording, new_recorder, is_recording, FrameAnswers, Request,
  SessionConfig, no_profile, build_status,
}
use camera_subsystem.Codec.Protocol.{
  parse_request_line, extract_string_field, parse_command, serialize_status, request_id_survives,
}
use camera_subsystem.Codec.Control.{
  RequestAnswers, Connection, new_connection, read_char, handle_request, line_max,
}
use camera_subsystem.Codec.Control.Safety.{
  Reach, here, next, reads, receives, clients_keep_recordings,
}
use camera_subsystem.Core.Words.{u64}
use camera_subsystem.Codec.Writer.{
  Writer, ok, Disk, new_writer, validate_stream_id, ensure_output_dir, generate_file_name,
  free_path, open_file,
}
use camera_subsystem.Codec.Names.{
  is_member, IsInjective, is_found, open_ends, open_never_overwrites,
}

-- The recording's first name and its second one exist, next to the directory.
abbrev taken_files : List Bytes
taken_files =
    codes "/rec"
    ∷ codes "/rec/cam_20260131_120000.h264"
    ∷ codes "/rec/cam_20260131_120000_!!.h264"
    ∷ []

-- A text for each number that is not the decimal one, and is different for different numbers.
abbrev strokes : ℕ → Bytes
strokes zero = []
strokes (suc n) = 33 ∷ strokes n

strokes-length : (n : ℕ) → length (strokes n) ≡ n
strokes-length zero = refl
strokes-length (suc n) = ap suc (strokes-length n)

strokes-IsInjective : IsInjective strokes
strokes-IsInjective m n hm hn e = sym (strokes-length m) ∙ ap length e ∙ strokes-length n

abbrev test_disk : Disk
test_disk = record {
  exists = λ p. is_member p taken_files;
  throws = λ p. false;
  test_file_opens = true;
  directories_created = true;
  timestamp = codes "20260131_120000";
  to_string = strokes;
  path_max = 4096;
  opened = some 5;
  flushed = true;
  synced = true;
}

open_ends_example : is_found (open_file 4 new_writer (codes "cam") (codes "/rec") test_disk) ≡ true
open_ends_example =
    open_ends 4 new_writer (codes "cam") (codes "/rec") test_disk taken_files strokes-IsInjective
      (λ p. refl) (λ p e. e) (omega arith) (omega arith)

abbrev third_writer : Writer
third_writer = record new_writer {
  handle = some 5;
  file_path = codes "/rec/cam_20260131_120000_!!!.h264";
  is_open = true;
}

third_name : open_file 4 new_writer (codes "cam") (codes "/rec") test_disk ≡ some (third_writer, ok)
unfolding open_file validate_stream_id ensure_output_dir free_path generate_file_name
third_name = refl

open_never_overwrites_example :
    (test_disk.exists third_writer.file_path ≡ false) × (third_writer.is_open ≡ true)
open_never_overwrites_example =
    open_never_overwrites 4 new_writer third_writer (codes "cam") (codes "/rec") test_disk
      third_name

abbrev test_config : SessionConfig
test_config = record {
  default_output_dir = codes "/rec";
  enable_camera_subscriber = true;
  fps = 30;
  bitrate = 4000000;
  gop = 60;
}

abbrev test_request : Request
test_request = record {
  request_id = codes "a\"b";
  stream_id = codes "cam";
  codec = codes "h264";
  container = codes "raw_h264";
  output_dir = [];
  profile = no_profile;
}

abbrev test_answers : RequestAnswers
test_answers = record {
  rounds = 4;
  disk = test_disk;
  subscribes = true;
  flushed = true;
  synced = false;
  strtoul = λ s. none;
  to_string = strokes;
  responds = true;
}

-- A connection that gets several bytes, and the run that this is.
abbrev read_from_some : (Connection → Option Connection) → Option Connection → Option Connection
read_from_some f none = none
read_from_some f (some c) = f c

abbrev read_all : Connection → Bytes → Option Connection
read_all c [] = some c
read_all c (ch ∷ rest) = read_from_some (λ d. read_all d rest) (read_char c ch test_answers)

read_all-Reach :
    (c d e : Connection) (text : Bytes) → Reach c d → read_all d text ≡ some e → Reach c e
read_all-Reach c d e [] r h = subst (Reach c) (some_inj d e h) r
  where
    some_inj : (x y : Connection) → some x ≡ some y → x ≡ y
    some_inj x y q = cc
read_all-Reach c d e (ch ∷ rest) r h = elim (Option-cases (read_char d ch test_answers)) [
  | inl stuck ↦ absurd (nothing (sym (ap (read_from_some (λ x. read_all x rest)) stuck) ∙ h))
  | inr (x, got) ↦
      read_all-Reach c x e rest (next r (reads d ch test_answers x got))
        (sym (ap (read_from_some (λ y. read_all y rest)) got) ∙ h)
]
  where
    nothing : none ≡ some e → ⊥
    nothing q = cc

abbrev after : Option Connection → Connection
after none = new_connection (new_recorder test_config)
after (some c) = c

abbrev two_packets : FrameAnswers
two_packets = record {
  decodes = true;
  opens = true;
  encodes = true;
  packets = (100, 100) ∷ (50, 20) ∷ [];
}

abbrev fresh : Connection
fresh = new_connection (new_recorder test_config)

abbrev start_line : Bytes
start_line = codes "{\"type\":\"start_recording\",\"stream_id\":\"cam\"}\n"

abbrev started : Connection
started = after (read_all fresh start_line)

started-read : read_all fresh start_line ≡ some started
unfolding read_char parse_request_line extract_string_field parse_command handle_request
    start_recording new_recorder open_file validate_stream_id ensure_output_dir free_path
    generate_file_name
started-read = refl

started_records : started.recorder.writer.is_open ≡ true
unfolding read_char parse_request_line extract_string_field parse_command handle_request
    start_recording new_recorder open_file validate_stream_id ensure_output_dir free_path
    generate_file_name
started_records = refl

abbrev last_connection : Connection
last_connection = record started { recorder = handle_input_frame started.recorder two_packets }

clients_keep_recordings_example :
    (length last_connection.line ≤ line_max)
    × (last_connection.recorder.writer.is_open ≡ is_recording last_connection.recorder.state)
    × (u64 (last_connection.recorder.encoded_frames + last_connection.recorder.dropped_frames)
        ≡ last_connection.recorder.decoded_frames)
clients_keep_recordings_example = clients_keep_recordings test_config last_connection (
    next (read_all-Reach fresh fresh started start_line here started-read)
      (receives started two_packets))

request_id_survives_example :
    extract_string_field
      (serialize_status strokes (build_status (new_recorder test_config) test_request []))
      (codes "request_id")
    ≡ some (build_status (new_recorder test_config) test_request []).request_id
request_id_survives_example =
    request_id_survives strokes (build_status (new_recorder test_config) test_request [])
