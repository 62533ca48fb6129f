-- ===== src/Codec/Control/Safety.antt =====
-- Whatever bytes clients send, the codec server of extensions/codec_server/src stays sound.
use camera_subsystem.Codec.Protocol.{
  start_command, stop_command, status_command, unknown_command, accepted, rejected, Command, Parsed,
}
use camera_subsystem.Prelude.{
  ℕ, ◌+◌, ◌≤◌, ◌≡◌, refl, subst, inl, inr, Option, none, some, [], ◌∷◌, arith, leb, ◌==◌,
  Bool-cases, length, length-append, Bytes, bytes_eq, nat_eq,
}
use camera_subsystem.Core.Words.{u64}
use camera_subsystem.Codec.Session.{
  Request, Status, SessionConfig, Recorder, new_recorder, is_recording, stop_recording,
  FrameAnswers, handle_input_frame,
}
use camera_subsystem.Codec.Session.Consistency.{
  IsConsistent, Consistent, start_recording-Consistent, stop_from-IsConsistent,
  handle_input_frame-IsConsistent, new_recorder-IsConsistent,
}
use camera_subsystem.Codec.Control.{
  RequestAnswers, status_of, handle_request, handle_parsed, Connection, new_connection, answered,
  line_max, read_char,
}

-- The recorder that an answer leaves, if there is an answer.
unfoldable Sound : Option (Recorder × Status) → Type 0
Sound none = Unit
Sound (some (r, status)) = IsConsistent r

status_of-Sound :
    (q : Request) (o : Option (Recorder × Bytes)) → Consistent o → Sound (status_of q o)
unfolding Sound Consistent
status_of-Sound q none c = tt
status_of-Sound q (some (r, text)) c = c

handle_request-Sound :
    (r : Recorder) (c : Command) (q : Request) (a : RequestAnswers)
    → IsConsistent r
    → Sound (handle_request r c q a)
unfolding handle_request Sound stop_recording
handle_request-Sound r start_command q a v =
    status_of-Sound q _
      (start_recording-Consistent a.rounds r q a.disk a.subscribes a.flushed a.synced v)
handle_request-Sound r stop_command q a v =
    stop_from-IsConsistent r.state r a.flushed a.synced refl v
handle_request-Sound r status_command q a v = v
handle_request-Sound r unknown_command q a v = v

handle_parsed-Sound :
    (r : Recorder) (p : Parsed) (a : RequestAnswers) → IsConsistent r → Sound (handle_parsed r p a)
unfolding Sound
handle_parsed-Sound r (accepted c q) a v = handle_request-Sound r c q a v
handle_parsed-Sound r (rejected text) a v = v

-- What holds of a connection, if it goes on.
record IsServed (c : Connection) : Type 0 where
  bounded : length c.line ≤ line_max
  recorder : IsConsistent c.recorder

unfoldable Served : Option Connection → Type 0
Served none = Unit
Served (some c) = IsServed c

answered-Served :
    (c : Connection) (a : RequestAnswers) (o : Option (Recorder × Status))
    → length c.line ≤ line_max
    → Sound o
    → Served (answered c a o)
unfolding Served Sound
answered-Served c a none b v = tt
answered-Served c a (some (r, status)) b v = record { bounded = ground (arith, b); recorder = v }

read_char-Served :
    (c : Connection) (ch : ℕ) (a : RequestAnswers) → IsServed c → Served (read_char c ch a)
unfolding read_char Served
read_char-Served c ch a v = elim (Bool-cases (ch == 10)) [
  | inl ends ↦
      rw ends (answered-Served c a _ v.bounded (handle_parsed-Sound c.recorder _ a v.recorder))
  | inr inside ↦ elim (Bool-cases (leb line_max (length c.line))) [
    | inl full ↦ rw (inside, full) record { bounded = omega arith; recorder = v.recorder }
    | inr room ↦
        rw (inside, room)
          record {
            bounded = ground (arith, room, length-append c.line (ch ∷ []));
            recorder = v.recorder;
          }
  ]
]

-- A byte of the connection, or a frame of the camera in between.
pub data Step : Connection → Connection → Type 0 where
  reads :
      (c : Connection) (ch : ℕ) (a : RequestAnswers) (c' : Connection)
      → read_char c ch a ≡ some c'
      → Step c c'
  receives :
      (c : Connection) (f : FrameAnswers)
      → Step c (record c { recorder = handle_input_frame c.recorder f })

pub data Reach (c : Connection) : Connection → Type 0 where
  here : Reach c c
  next : {d e : Connection} → Reach c d → Step d e → Reach c e

Step-IsServed : {c d : Connection} → Step c d → IsServed c → IsServed d
unfolding Served
Step-IsServed (reads c ch a c' e) v = subst Served e (read_char-Served c ch a v)
Step-IsServed (receives c f) v = record {
  bounded = v.bounded;
  recorder = handle_input_frame-IsConsistent c.recorder f v.recorder;
}

Reach-IsServed : {c d : Connection} → IsServed c → Reach c d → IsServed d
Reach-IsServed v here = v
Reach-IsServed v (next r st) = Step-IsServed st (Reach-IsServed v r)

-- Whatever bytes a client sends, with any frames in between and any answers of the system, the line
-- that the server keeps stays within 64 KiB, the recording file is open exactly while the state is
-- recording, and every decoded frame is encoded or counted as dropped, as far as 64-bit counters
-- tell.
pub clients_keep_recordings :
    (config : SessionConfig) (c : Connection)
    → Reach (new_connection (new_recorder config)) c
    → (length c.line ≤ line_max)
      × (c.recorder.writer.is_open ≡ is_recording c.recorder.state)
      × (u64 (c.recorder.encoded_frames + c.recorder.dropped_frames) ≡ c.recorder.decoded_frames)
clients_keep_recordings config c run =
    let first : IsServed (new_connection (new_recorder config)) = record {
      bounded = omega arith;
      recorder = new_recorder-IsConsistent config;
    } in
    let v = Reach-IsServed first run in (v.bounded, v.recorder.file, v.recorder.frames)
