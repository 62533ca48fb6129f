-- ===== src/Web/Answers.antt =====
-- What a browser is answered by ClientReadLoop of extensions/web_preview/gateway/src/web_server.cpp.
use camera_subsystem.Prelude.{
  ℕ, ◌<◌, ◌≤◌, ◌≡◌, ◌≢◌, refl, ap, ◌∙◌, true, false, Option, none, some, List, [], ◌∷◌, ◌++◌, arith,
  leb, ◌==◌, if◌then◌else◌, length, Bytes, bytes_eq, nat_eq,
}
use camera_subsystem.Web.Frames.{send_frame, read_frame, max_control_payload}
use camera_subsystem.Web.Masks.{Mask, MaskFits, AreBytes, wire, frame_read_back}
use camera_subsystem.Web.Client.{turn, text_result, client_read_loop}
use camera_subsystem.Web.Turns.{client_read_loop-turn}

-- What a browser sends before it closes; `other` is any opcode that the gateway does not know.
pub data Message : Type 0 where
  ping text : Bytes → Message
  other : ℕ → Bytes → Message

abbrev pub opcode_of : Message → ℕ
opcode_of (ping body) = 9
opcode_of (text body) = 1
opcode_of (other opcode body) = opcode

abbrev pub body_of : Message → Bytes
body_of (ping body) = body
body_of (text body) = body
body_of (other opcode body) = body

abbrev pub IsOpcode : Message → Type 0
IsOpcode (other opcode body) = (opcode < 16) × (opcode ≢ 1) × (opcode ≢ 8) × (opcode ≢ 9)
IsOpcode _ = Unit

-- A payload of at most 64 KiB.
abbrev pub Fits : Option Mask → Bytes → Type 0
Fits mask body = MaskFits mask × AreBytes body × (length body ≤ max_control_payload)

abbrev pub AllFit : List (Option Mask × Message) → Type 0
AllFit [] = Unit
AllFit ((mask, m) ∷ ms) = IsOpcode m × Fits mask (body_of m) × AllFit ms

-- The frames of the messages, and then the tail.
abbrev pub sent : List (Option Mask × Message) → Bytes → Bytes
sent [] tail = tail
sent ((mask, m) ∷ ms) tail = wire (opcode_of m) mask (body_of m) (sent ms tail)

abbrev pub answer : (Bytes → Bytes) → Message → Bytes
answer handle_record_command (ping body) = send_frame 10 body
answer handle_record_command (text body) = send_frame 1 (text_result handle_record_command body)
answer handle_record_command (other opcode body) = []

abbrev pub answers : (Bytes → Bytes) → List (Option Mask × Message) → Bytes
answers handle_record_command [] = []
answers handle_record_command ((mask, m) ∷ ms) =
    answer handle_record_command m ++ answers handle_record_command ms

frame_read :
    (opcode : ℕ) (mask : Option Mask) (body rest : Bytes)
    → opcode < 16
    → Fits mask body
    → read_frame (wire opcode mask body rest)
      ≡ some (record { opcode = opcode; payload = body; rest = rest })
frame_read opcode mask body rest op (hm, h, size) =
    let fits : leb (length body) max_control_payload ≡ true = ground (arith, size) in
    frame_read_back opcode mask body rest op hm h (omega (arith, size))
    ∙ ap (λ b. if b then some (record { opcode = opcode; payload = body; rest = rest }) else none)
        fits

opcode_fits : (m : Message) → IsOpcode m → opcode_of m < 16
opcode_fits (ping body) h = omega arith
opcode_fits (text body) h = omega arith
opcode_fits (other opcode body) h = h.0

turn-answer :
    (handle : Bytes → Bytes) (later : Bytes → Bytes) (m : Message) (rest : Bytes)
    → IsOpcode m
    → turn handle later (some (record { opcode = opcode_of m; payload = body_of m; rest = rest }))
      ≡ answer handle m ++ later rest
turn-answer handle later (ping body) rest h = refl
turn-answer handle later (text body) rest h = refl
turn-answer handle later (other opcode body) rest (op, not_text, not_close, not_ping) =
    let e1 : (opcode == 1) ≡ false = ground (arith, not_text) in
    let e8 : (opcode == 8) ≡ false = ground (arith, not_close) in
    let e9 : (opcode == 9) ≡ false = ground (arith, not_ping) in rw (e8, e9, e1) refl

-- A browser that sends messages of at most 64 KiB each, masked or not, and then a close frame is
-- answered each ping by a pong with its payload and each text by its result, in their order and with
-- nothing between; other opcodes, and what comes behind the close frame, are not answered.
pub messages_answered :
    (handle_record_command : Bytes → Bytes) (ms : List (Option Mask × Message)) (mask : Option Mask)
    (reason rest : Bytes)
    → AllFit ms
    → Fits mask reason
    → client_read_loop handle_record_command (sent ms (wire 8 mask reason rest))
      ≡ answers handle_record_command ms
messages_answered handle [] mask reason rest fits close =
    client_read_loop-turn handle (wire 8 mask reason rest)
    ∙ ap (turn handle (client_read_loop handle)) (frame_read 8 mask reason rest (omega arith) close)
messages_answered handle ((k, m) ∷ ms) mask reason rest (op, fit, fits) close =
    let later = sent ms (wire 8 mask reason rest) in
    client_read_loop-turn handle (wire (opcode_of m) k (body_of m) later)
    ∙ ap (turn handle (client_read_loop handle))
        (frame_read (opcode_of m) k (body_of m) later (opcode_fits m op) fit)
    ∙ turn-answer handle (client_read_loop handle) m later op
    ∙ ap (λ s. answer handle m ++ s) (messages_answered handle ms mask reason rest fits close)
