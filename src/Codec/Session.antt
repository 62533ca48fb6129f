-- ===== src/Codec/Session.antt =====
-- extensions/codec_server/src/recording_session_manager.cpp, with the request and the status of
-- codec_control_protocol.h. The subscriber, the decoder and the encoder are arguments: what they
-- answer. A method that locks `mutex_` is one step, and so is a frame under `pipeline_mutex_`.
pub mod Consistency
use camera_subsystem.Prelude.{
  ℕ, ◌+◌, Bool, true, false, not, ◌&&◌, Option, none, some, List, [], ◌∷◌, ltb, if◌then◌else◌,
  Bytes, codes, is_empty, bytes_eq, nat_eq,
}
use camera_subsystem.Core.Words.{u64}
use camera_subsystem.Codec.Writer.{
  Writer, WriterResult, ok, output_dir_not_writable, file_create_failed, invalid_stream_id,
  file_not_open, recording_io_error, Disk, new_writer, open_file, close, write,
}

pub record Profile : Type 0 where
  pub width : ℕ
  pub height : ℕ
  pub fps : ℕ
  pub bitrate : ℕ
  pub gop : ℕ

abbrev pub no_profile : Profile
no_profile = record { width = 0; height = 0; fps = 0; bitrate = 0; gop = 0 }

pub record Request : Type 0 where
  pub request_id : Bytes
  pub stream_id : Bytes
  pub codec : Bytes
  pub container : Bytes
  pub output_dir : Bytes
  pub profile : Profile

-- The values that `state_` takes.
pub data RecordingState : Type 0 where
  idle starting recording stopping error : RecordingState

abbrev pub state_name : RecordingState → Bytes
state_name idle = codes "idle"
state_name starting = codes "starting"
state_name recording = codes "recording"
state_name stopping = codes "stopping"
state_name error = codes "error"

pub record Status : Type 0 where
  pub request_id : Bytes
  pub stream_id : Bytes
  pub recording : Bool
  pub state : Bytes
  pub codec : Bytes
  pub container : Bytes
  pub file : Bytes
  pub encoded_frames : ℕ
  pub decoded_frames : ℕ
  pub dropped_frames : ℕ
  pub input_frames : ℕ
  pub decode_failures : ℕ
  pub write_failures : ℕ
  pub error : Bytes
  pub profile : Profile

pub record SessionConfig : Type 0 where
  pub default_output_dir : Bytes
  pub enable_camera_subscriber : Bool
  pub fps : ℕ
  pub bitrate : ℕ
  pub gop : ℕ

-- `subscriber_input` and `subscriber_failures` are what `subscriber_.GetStats` tells.
pub record Recorder : Type 0 where
  pub config : SessionConfig
  pub writer : Writer
  pub encoder_open : Bool
  pub state : RecordingState
  pub stream_id : Bytes
  pub file_path : Bytes
  pub profile : Profile
  pub encoded_frames : ℕ
  pub dropped_frames : ℕ
  pub input_frames : ℕ
  pub decoded_frames : ℕ
  pub decode_failures : ℕ
  pub last_error : Bytes
  pub subscriber_input : ℕ
  pub subscriber_failures : ℕ

-- The constructor.
unfoldable pub new_recorder : SessionConfig → Recorder
new_recorder config = record {
  config = config;
  writer = new_writer;
  encoder_open = false;
  state = idle;
  stream_id = [];
  file_path = [];
  profile = no_profile;
  encoded_frames = 0;
  dropped_frames = 0;
  input_frames = 0;
  decoded_frames = 0;
  decode_failures = 0;
  last_error = [];
  subscriber_input = 0;
  subscriber_failures = 0;
}

unfoldable pub map_writer_error : WriterResult → Bytes
map_writer_error ok = []
map_writer_error output_dir_not_writable = codes "output_dir_not_writable"
map_writer_error invalid_stream_id = codes "invalid_stream_id"
map_writer_error file_create_failed = codes "recording_file_create_failed"
map_writer_error file_not_open = codes "recording_io_error"
map_writer_error recording_io_error = codes "recording_io_error"

abbrev pub is_recording : RecordingState → Bool
is_recording recording = true
is_recording _ = false

abbrev pub or_else : Bytes → Bytes → Bytes
or_else value default = if is_empty value then default else value

unfoldable pub build_status : Recorder → Request → Bytes → Status
build_status r q error_text = record {
  request_id = q.request_id;
  stream_id = or_else r.stream_id q.stream_id;
  recording = is_recording r.state;
  state = state_name r.state;
  codec = or_else q.codec (codes "h264");
  container = or_else q.container (codes "raw_h264");
  file = r.file_path;
  encoded_frames = r.encoded_frames;
  decoded_frames = r.decoded_frames;
  dropped_frames = r.dropped_frames;
  input_frames = if r.config.enable_camera_subscriber then r.subscriber_input else r.input_frames;
  decode_failures = r.decode_failures;
  write_failures = u64 (r.writer.stats.write_failures + r.subscriber_failures);
  error = error_text;
  profile = r.profile;
}

abbrev pub or_default : ℕ → ℕ → ℕ
or_default value default = if ltb 0 value then value else default

-- StartRecording up to the call of the writer's Open.
abbrev pub prepared : Recorder → Request → Recorder
prepared r q = record r {
  state = starting;
  stream_id = q.stream_id;
  profile = record no_profile {
    fps = or_default q.profile.fps r.config.fps;
    bitrate = or_default q.profile.bitrate r.config.bitrate;
    gop = or_default q.profile.gop r.config.gop;
  };
  encoded_frames = 0;
  dropped_frames = 0;
  input_frames = 0;
  decoded_frames = 0;
  decode_failures = 0;
  last_error = [];
}

abbrev pub failed : Recorder → Bytes → Recorder × Bytes
failed r text = (record r { state = error; last_error = text }, text)

-- After an Open that says ok, with whether the subscriber starts and what `fflush` and `fsync`
-- answer to the Close when it does not.
abbrev pub subscribed : Recorder → Writer → Bool → Bool → Bool → Recorder × Bytes
subscribed r w subscribes flushed synced =
    let opened = record r { writer = w; file_path = w.file_path } in
    if r.config.enable_camera_subscriber && not subscribes
    then failed (record opened { writer = (close w flushed synced).0 }) (codes "stream_not_found")
    else (record opened { state = recording }, [])

abbrev pub opened_writer :
    Recorder → Option (Writer × WriterResult) → Bool → Bool → Bool → Option (Recorder × Bytes)
opened_writer r none subscribes flushed synced = none
opened_writer r (some (w, ok)) subscribes flushed synced =
    some (subscribed r w subscribes flushed synced)
opened_writer r (some (w, bad)) subscribes flushed synced =
    some (failed (record r { writer = w; file_path = [] }) (map_writer_error bad))

abbrev pub is_busy : RecordingState → Bool
is_busy recording = true
is_busy starting = true
is_busy stopping = true
is_busy _ = false

abbrev pub requested_dir : Recorder → Request → Bytes
requested_dir r q = or_else q.output_dir r.config.default_output_dir

-- The recorder and the error text that BuildStatusLocked is given; none when the writer's conflict
-- loop needs more rounds.
unfoldable pub start_recording :
    ℕ → Recorder → Request → Disk → Bool → Bool → Bool → Option (Recorder × Bytes)
start_recording rounds r q d subscribes flushed synced =
    if is_busy r.state
    then some (r, codes "already_recording")
    else opened_writer (prepared r q) (open_file rounds r.writer q.stream_id (requested_dir r q) d)
        subscribes flushed synced

abbrev pub closed_writer : Recorder → Writer × WriterResult → Recorder × Bytes
closed_writer r (w, ok) = (record r { writer = w; state = idle }, [])
closed_writer r (w, bad) = failed (record r { writer = w }) (map_writer_error bad)

abbrev pub stop_busy : Recorder → Bool → Bool → Recorder × Bytes
stop_busy r flushed synced =
    closed_writer (record r { state = stopping; encoder_open = false })
      (close r.writer flushed synced)

-- StopRecording, by the state that it finds.
abbrev pub stop_from : RecordingState → Recorder → Bool → Bool → Recorder × Bytes
stop_from idle r flushed synced = (r, codes "not_recording")
stop_from error r flushed synced = (record r { state = idle }, r.last_error)
stop_from _ r flushed synced = stop_busy r flushed synced

unfoldable pub stop_recording : Recorder → Bool → Bool → Recorder × Bytes
stop_recording r flushed synced = stop_from r.state r flushed synced

-- Whether the decoder decodes the frame, the encoder opens, and it encodes; and the packets that it
-- gives, each with the size and with what `fwrite` takes of it.
pub record FrameAnswers : Type 0 where
  pub decodes : Bool
  pub opens : Bool
  pub encodes : Bool
  pub packets : List (ℕ × ℕ)

-- The loop over the packets, and whether each was written.
abbrev pub written_to : Writer × WriterResult → (Writer → Writer × Bool) → Writer × Bool
written_to (w, ok) next = next w
written_to (w, bad) next = (w, false)

abbrev pub write_packets : Writer → List (ℕ × ℕ) → Writer × Bool
write_packets w [] = (w, true)
write_packets w ((size, written) ∷ rest) =
    written_to (write w size written) (λ w'. write_packets w' rest)

abbrev pub drop : Recorder → Recorder
drop r = record r { dropped_frames = u64 (r.dropped_frames + 1) }

abbrev pub encode_frame : Recorder → FrameAnswers → Recorder
encode_frame r a =
    let (w, all) = write_packets r.writer a.packets in
    if not a.encodes
    then drop r
    else (if not all
        then drop (record r { writer = w })
        else record r { writer = w; encoded_frames = u64 (r.encoded_frames + 1) })

abbrev pub decode_frame : Recorder → Recorder
decode_frame r = record r { decoded_frames = u64 (r.decoded_frames + 1) }

unfoldable pub handle_input_frame : Recorder → FrameAnswers → Recorder
handle_input_frame r a =
    let decoded = decode_frame r in
    if not a.decodes
    then record r { decode_failures = u64 (r.decode_failures + 1) }
    else (if not r.encoder_open
        then (if not a.opens
            then drop decoded
            else encode_frame (record decoded { encoder_open = true }) a)
        else encode_frame decoded a)

-- DecodedImageFrame, without its pixels, and H264EncoderConfig.
pub record DecodedImage : Type 0 where
  pub width : ℕ
  pub height : ℕ
  pub hor_stride : ℕ
  pub ver_stride : ℕ

pub record EncoderConfig : Type 0 where
  pub image : DecodedImage
  pub fps : ℕ
  pub bitrate : ℕ
  pub gop : ℕ

unfoldable pub build_encoder_config : Recorder → DecodedImage → EncoderConfig
build_encoder_config r frame = record {
  image = frame;
  fps = or_default r.profile.fps r.config.fps;
  bitrate = or_default r.profile.bitrate r.config.bitrate;
  gop = or_default r.profile.gop r.config.gop;
}
