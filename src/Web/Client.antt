-- ===== src/Web/Client.antt =====
-- The connection of a browser: ClientReadLoop of extensions/web_preview/gateway/src/web_server.cpp.
-- The reply of HandleRecordCommand to a text comes from the codec server and is an argument; the line
-- that it sends there is in Web/Commands. The server is not stopped while the loop reads, and what
-- is written is not lost.
use camera_subsystem.Prelude.{
  ℕ, zero, suc, Bool, true, false, ◌||◌, Option, none, some, [], ◌++◌, ◌==◌, if◌then◌else◌, length,
  Bytes, codes, bytes_eq, nat_eq,
}
use camera_subsystem.Codec.Protocol.{find_after}
use camera_subsystem.Web.Frames.{Frame, send_frame, read_frame}

abbrev pub is_found : Option Bytes → Bool
is_found none = false
is_found (some _) = true

-- The test for a record command.
abbrev pub is_record_command : Bytes → Bool
is_record_command text =
    is_found (find_after (codes "\"type\":\"set_record_enabled\"") text)
    || is_found (find_after (codes "\"type\": \"set_record_enabled\"") text)

abbrev pub text_result : (Bytes → Bytes) → Bytes → Bytes
text_result handle_record_command text =
    if is_record_command text
    then handle_record_command text
    else codes "{\"type\":\"command_result\",\"status\":\"not_supported\"}"

-- What the loop writes for a frame that does not end it.
abbrev pub reply : (Bytes → Bytes) → Frame → Bytes
reply handle_record_command frame =
    if frame.opcode == 9
    then send_frame 10 frame.payload
    else (if frame.opcode == 1
        then send_frame 1 (text_result handle_record_command frame.payload)
        else [])

-- A turn of the loop, with what it writes and then what the later turns write.
abbrev pub turn : (Bytes → Bytes) → (Bytes → Bytes) → Option Frame → Bytes
turn handle_record_command later none = []
turn handle_record_command later (some frame) =
    if frame.opcode == 8 then [] else reply handle_record_command frame ++ later frame.rest

abbrev pub read_turns : ℕ → (Bytes → Bytes) → Bytes → Bytes
read_turns zero handle_record_command s = []
read_turns (suc fuel) handle_record_command s =
    turn handle_record_command (read_turns fuel handle_record_command) (read_frame s)

-- ClientReadLoop: the bytes that it writes to a client that sends `s`. Each turn reads two bytes at
-- least, so that a turn for each byte is enough.
unfoldable pub client_read_loop : (Bytes → Bytes) → Bytes → Bytes
client_read_loop handle_record_command s = read_turns (length s) handle_record_command s
