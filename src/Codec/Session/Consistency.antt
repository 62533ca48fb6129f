-- ===== src/Codec/Session/Consistency.antt =====
-- The invariant of extensions/codec_server/src/recording_session_manager.cpp: the state and the file
-- agree, and every decoded frame is accounted for.
use camera_subsystem.Prelude.{
  ℕ, ◌+◌, ◌≡◌, refl, ap, ◌∙◌, inl, inr, Bool, true, false, not, ◌&&◌, Option, none, some, List, [],
  ◌∷◌, arith, leb, ◌==◌, if◌then◌else◌, Bool-cases, length, Bytes, bytes_eq, nat_eq,
}
use camera_subsystem.Codec.Session.{
  Request, SessionConfig, Recorder, RecordingState, idle, starting, recording, stopping, error,
  new_recorder, is_recording, is_busy, prepared, subscribed, opened_writer, start_recording,
  closed_writer, stop_from, FrameAnswers, written_to, write_packets, encode_frame,
  handle_input_frame, requested_dir, stop_busy,
}
use camera_subsystem.Core.Words.{u64}
use camera_subsystem.Codec.Writer.{
  write, close, Writer, WriterResult, ok, output_dir_not_writable, file_create_failed,
  invalid_stream_id, file_not_open, recording_io_error, Disk, validate_stream_id, ensure_output_dir,
  free_path, close_handle, create, open_at, unless_ok, open_file,
}

abbrev is_ok : WriterResult → Bool
is_ok ok = true
is_ok _ = false

-- A claim on a conditional, branch by branch.
if_cases {ℓ} :
    {A : Type ℓ} (P : A → Type 0) (b : Bool) (x y : A)
    → (b ≡ true → P x)
    → (b ≡ false → P y)
    → P (if b then x else y)
if_cases P true x y f g = f refl
if_cases P false x y f g = g refl

close-is_open : (w : Writer) (flushed synced : Bool) → (close w flushed synced).0.is_open ≡ false
unfolding close close_handle
close-is_open w flushed synced =
    if_cases (λ (r : Writer × WriterResult). r.0.is_open ≡ false) (not w.is_open) _ _
      (λ e. ground (arith, e)) (λ e. refl)

-- The writer is open exactly when the answer is ok.
unfoldable Agrees : Option (Writer × WriterResult) → Type 0
Agrees none = Unit
Agrees (some (w, r)) = w.is_open ≡ is_ok r

create-Agrees :
    (w : Writer) (path : Bytes) (o : Option ℕ) → w.is_open ≡ false → Agrees (some (create w path o))
unfolding Agrees
create-Agrees w path none e = e
create-Agrees w path (some h) e = refl

open_at-Agrees :
    (w : Writer) (d : Disk) (o : Option Bytes) → w.is_open ≡ false → Agrees (open_at w d o)
unfolding Agrees
open_at-Agrees w d none e = tt
open_at-Agrees w d (some path) e = elim (Bool-cases (leb d.path_max (length path))) [
  | inl long ↦ rw long e
  | inr fits ↦ rw fits (create-Agrees w path d.opened e)
]

unless_ok-Agrees :
    (w : Writer) (r : WriterResult) (next : Option (Writer × WriterResult))
    → w.is_open ≡ false
    → Agrees next
    → Agrees (unless_ok w r next)
unfolding Agrees
unless_ok-Agrees w ok next e a = a
unless_ok-Agrees w output_dir_not_writable next e a = e
unless_ok-Agrees w file_create_failed next e a = e
unless_ok-Agrees w invalid_stream_id next e a = e
unless_ok-Agrees w file_not_open next e a = e
unless_ok-Agrees w recording_io_error next e a = e

open_file-Agrees :
    (rounds : ℕ) (w : Writer) (id dir : Bytes) (d : Disk) → Agrees (open_file rounds w id dir d)
unfolding open_file
open_file-Agrees rounds w id dir d =
    let w0 = if w.is_open then (close w d.flushed d.synced).0 else w in
    let shut : w0.is_open ≡ false = shut_first w.is_open refl in
    unless_ok-Agrees w0 (validate_stream_id id) _ shut (
      unless_ok-Agrees w0 (ensure_output_dir d dir) _ shut
        (open_at-Agrees w0 d (free_path d rounds id dir) shut))
  where
    shut_first :
        (b : Bool)
        → w.is_open ≡ b
        → (if b then (close w d.flushed d.synced).0 else w).is_open ≡ false
    shut_first true e = close-is_open w d.flushed d.synced
    shut_first false e = e

write-is_open : (w : Writer) (size written : ℕ) → (write w size written).0.is_open ≡ w.is_open
unfolding write
write-is_open w size written =
    let same : Writer × WriterResult → Type 0 = λ r. r.0.is_open ≡ w.is_open in
    if_cases same (not w.is_open) _ _ (λ e. refl)
      (λ e.
        if_cases same (size == 0) _ _ (λ e. refl)
          (λ e. if_cases same (not (written == size)) _ _ (λ e. refl) (λ e. refl)))

written_to-is_open :
    (w : Writer) (p : Writer × WriterResult) (next : Writer → Writer × Bool)
    → p.0.is_open ≡ w.is_open
    → ((x : Writer) → (next x).0.is_open ≡ x.is_open)
    → (written_to p next).0.is_open ≡ w.is_open
written_to-is_open w (x, ok) next e f = f x ∙ e
written_to-is_open w (x, output_dir_not_writable) next e f = e
written_to-is_open w (x, file_create_failed) next e f = e
written_to-is_open w (x, invalid_stream_id) next e f = e
written_to-is_open w (x, file_not_open) next e f = e
written_to-is_open w (x, recording_io_error) next e f = e

write_packets-is_open :
    (w : Writer) (packets : List (ℕ × ℕ)) → (write_packets w packets).0.is_open ≡ w.is_open
write_packets-is_open w [] = refl
write_packets-is_open w ((size, written) ∷ rest) =
    written_to-is_open w (write w size written) (λ x. write_packets x rest)
      (write-is_open w size written) (λ x. write_packets-is_open x rest)

-- What the claims read of a recorder.
pub record IsConsistent (r : Recorder) : Type 0 where
  pub file : r.writer.is_open ≡ is_recording r.state
  pub frames : u64 (r.encoded_frames + r.dropped_frames) ≡ r.decoded_frames

encode_frame-IsConsistent :
    (r : Recorder) (a : FrameAnswers)
    → r.writer.is_open ≡ is_recording r.state
    → u64 (r.encoded_frames + r.dropped_frames + 1) ≡ r.decoded_frames
    → IsConsistent (encode_frame r a)
encode_frame-IsConsistent r a file frames =
    let still = write_packets-is_open r.writer a.packets ∙ file in
    if_cases IsConsistent (not a.encodes) _ _
      (λ e. record { file = file; frames = omega (arith, frames) })
      (λ e.
        if_cases IsConsistent (not (write_packets r.writer a.packets).1) _ _
          (λ e. record { file = still; frames = omega (arith, frames) })
          (λ e. record { file = still; frames = omega (arith, frames) }))

pub handle_input_frame-IsConsistent :
    (r : Recorder) (a : FrameAnswers) → IsConsistent r → IsConsistent (handle_input_frame r a)
unfolding handle_input_frame
handle_input_frame-IsConsistent r a c =
    if_cases IsConsistent (not a.decodes) _ _ (λ e. record { file = c.file; frames = c.frames })
      (λ e.
        if_cases IsConsistent (not r.encoder_open) _ _
          (λ e.
            if_cases IsConsistent (not a.opens) _ _
              (λ e. record { file = c.file; frames = omega (arith, c.frames) })
              (λ e. encode_frame-IsConsistent _ a c.file (omega (arith, c.frames))))
          (λ e. encode_frame-IsConsistent _ a c.file (omega (arith, c.frames))))

closed_writer-IsConsistent :
    (r : Recorder) (p : Writer × WriterResult)
    → p.0.is_open ≡ false
    → u64 (r.encoded_frames + r.dropped_frames) ≡ r.decoded_frames
    → IsConsistent (closed_writer r p).0
closed_writer-IsConsistent r (w, ok) e f = record { file = e; frames = f }
closed_writer-IsConsistent r (w, output_dir_not_writable) e f = record { file = e; frames = f }
closed_writer-IsConsistent r (w, file_create_failed) e f = record { file = e; frames = f }
closed_writer-IsConsistent r (w, invalid_stream_id) e f = record { file = e; frames = f }
closed_writer-IsConsistent r (w, file_not_open) e f = record { file = e; frames = f }
closed_writer-IsConsistent r (w, recording_io_error) e f = record { file = e; frames = f }

stop_busy-IsConsistent :
    (r : Recorder) (flushed synced : Bool)
    → IsConsistent r
    → IsConsistent (stop_busy r flushed synced).0
stop_busy-IsConsistent r flushed synced c =
    closed_writer-IsConsistent (record r { state = stopping; encoder_open = false })
      (close r.writer flushed synced) (close-is_open r.writer flushed synced) c.frames

pub stop_from-IsConsistent :
    (s : RecordingState) (r : Recorder) (flushed synced : Bool)
    → r.state ≡ s
    → IsConsistent r
    → IsConsistent (stop_from s r flushed synced).0
stop_from-IsConsistent idle r flushed synced e c = c
stop_from-IsConsistent error r flushed synced e c = record {
  file = c.file ∙ ap is_recording e;
  frames = c.frames;
}
stop_from-IsConsistent starting r flushed synced e c = stop_busy-IsConsistent r flushed synced c
stop_from-IsConsistent recording r flushed synced e c = stop_busy-IsConsistent r flushed synced c
stop_from-IsConsistent stopping r flushed synced e c = stop_busy-IsConsistent r flushed synced c

subscribed-IsConsistent :
    (r : Recorder) (w : Writer) (subscribes flushed synced : Bool)
    → w.is_open ≡ true
    → u64 (r.encoded_frames + r.dropped_frames) ≡ r.decoded_frames
    → IsConsistent (subscribed r w subscribes flushed synced).0
subscribed-IsConsistent r w subscribes flushed synced e f =
    if_cases (λ (x : Recorder × Bytes). IsConsistent x.0)
      (r.config.enable_camera_subscriber && not subscribes) _ _
      (λ h. record { file = close-is_open w flushed synced; frames = f })
      (λ h. record { file = e; frames = f })

-- The recorder, if there is one.
unfoldable pub Consistent : Option (Recorder × Bytes) → Type 0
Consistent none = Unit
Consistent (some (r, text)) = IsConsistent r

opened_writer-Consistent :
    (r : Recorder) (o : Option (Writer × WriterResult)) (subscribes flushed synced : Bool)
    → Agrees o
    → u64 (r.encoded_frames + r.dropped_frames) ≡ r.decoded_frames
    → Consistent (opened_writer r o subscribes flushed synced)
unfolding Agrees Consistent
opened_writer-Consistent r none s x y e f = tt
opened_writer-Consistent r (some (w, ok)) s x y e f = subscribed-IsConsistent r w s x y e f
opened_writer-Consistent r (some (w, output_dir_not_writable)) s x y e f = record {
  file = e;
  frames = f;
}
opened_writer-Consistent r (some (w, file_create_failed)) s x y e f = record {
  file = e;
  frames = f;
}
opened_writer-Consistent r (some (w, invalid_stream_id)) s x y e f = record { file = e; frames = f }
opened_writer-Consistent r (some (w, file_not_open)) s x y e f = record { file = e; frames = f }
opened_writer-Consistent r (some (w, recording_io_error)) s x y e f = record {
  file = e;
  frames = f;
}

pub start_recording-Consistent :
    (rounds : ℕ) (r : Recorder) (q : Request) (d : Disk) (subscribes flushed synced : Bool)
    → IsConsistent r
    → Consistent (start_recording rounds r q d subscribes flushed synced)
unfolding start_recording Consistent
start_recording-Consistent rounds r q d subscribes flushed synced c =
    if_cases Consistent (is_busy r.state) _ _ (λ e. c)
      (λ e.
        opened_writer-Consistent (prepared r q) _ subscribes flushed synced
          (open_file-Agrees rounds r.writer q.stream_id (requested_dir r q) d) refl)

pub new_recorder-IsConsistent : (config : SessionConfig) → IsConsistent (new_recorder config)
unfolding new_recorder
new_recorder-IsConsistent config = record { file = refl; frames = refl }
