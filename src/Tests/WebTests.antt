-- ===== src/Tests/WebTests.antt =====
-- Tests of the web gateway (extensions/web_preview/gateway/src) and of CameraReleaseServer (src/ipc/
-- camera_data_plane_v2.cpp), and their theorems at concrete inputs.
use camera_subsystem.Web.Commands.{extract_header, trim, to_lower, record_command, find_string}
use camera_subsystem.Codec.Protocol.{extract_string_field}
use camera_subsystem.Ipc.Server.Closing.{loop_fds, stop_closes_twice}
use camera_subsystem.Prelude.{
  ℕ, ◌+◌, ◌≤◌, ◌≡◌, refl, true, Option, none, some, List, [], ◌∷◌, arith, if◌then◌else◌, length,
  tally, count, Bytes, codes, bytes_eq, nat_eq, ◌=?◌,
}
use camera_subsystem.Core.Words.{u64}
use camera_subsystem.Web.Frames.{read_frame, send_frame, frame_header}
use camera_subsystem.Web.Masks.{Mask, MaskFits, wire, read_outcome, frame_read_back}
use camera_subsystem.Web.Answers.{
  Message, ping, text, other, AllFit, sent, answers, messages_answered,
}
use camera_subsystem.Web.Client.{client_read_loop, read_turns}
use camera_subsystem.Web.Turns.{client_read_loop_ends}
use camera_subsystem.Web.Paths.{resolve_path, url_decode_path}
use camera_subsystem.Web.Pipeline.{
  CameraFrame, new_pipeline, set_max_fps, set_packet_callback, submit_all, is_unsupported,
  frames_counted_once,
}
use camera_subsystem.Ipc.Release.{ok, FrameKey, make_release_frame}
use camera_subsystem.Ipc.Release.Ledger.{held, reclaimed, entered}
use camera_subsystem.Ipc.Server.{Server, new_server, start_server, accept_client, stop_server}
use camera_subsystem.Ipc.Server.Conservation.{
  Call, frames, drops, leaves, connects, sweeps, sends, stops, answer_all, callback_told_once,
}

abbrev test_mask : Mask
test_mask = record { first = 1; second = 2; third = 3; fourth = 4 }

frame_read_back_example :
    read_frame (wire 1 (some test_mask) (104 ∷ 105 ∷ []) (7 ∷ []))
    ≡ read_outcome 1 (104 ∷ 105 ∷ []) (7 ∷ [])
frame_read_back_example =
    frame_read_back 1 (some test_mask) (104 ∷ 105 ∷ []) (7 ∷ []) (omega arith)
      (omega arith, (omega arith, (omega arith, (omega arith, tt))))
      (omega arith, (omega arith, tt)) (omega arith)

abbrev test_messages : List (Option Mask × Message)
test_messages =
    (some test_mask, ping (1 ∷ 2 ∷ [])) ∷ (some test_mask, other 2 (5 ∷ [])) ∷ (none, text []) ∷ []

mask_fits : MaskFits (some test_mask)
mask_fits = (omega arith, (omega arith, (omega arith, (omega arith, tt))))

test_messages-AllFit : AllFit test_messages
test_messages-AllFit = (
  tt,
  (mask_fits, (omega arith, (omega arith, tt)), omega arith),
  (
    (omega arith, omega arith, omega arith, omega arith),
    (mask_fits, (omega arith, tt), omega arith),
    (tt, (tt, tt, omega arith), tt),
  ),
)

messages_answered_example :
    client_read_loop
      (λ text. text)
      (sent test_messages (wire 8 (some test_mask) [] (send_frame 9 (3 ∷ []))))
    ≡ answers (λ text. text) test_messages
messages_answered_example =
    messages_answered (λ text. text) test_messages (some test_mask) [] (send_frame 9 (3 ∷ []))
      test_messages-AllFit (mask_fits, tt, omega arith)

client_read_loop_ends_example :
    read_turns 9 (λ text. text) (138 ∷ 1 ∷ 65 ∷ 137 ∷ 0 ∷ [])
    ≡ client_read_loop (λ text. text) (138 ∷ 1 ∷ 65 ∷ 137 ∷ 0 ∷ [])
client_read_loop_ends_example =
    client_read_loop_ends (λ text. text) (138 ∷ 1 ∷ 65 ∷ 137 ∷ 0 ∷ []) 9 (omega arith)

-- A masked text that is no record command.
text_refused :
    client_read_loop (λ text. text) (129 ∷ 130 ∷ 1 ∷ 2 ∷ 3 ∷ 4 ∷ 105 ∷ 107 ∷ [])
    ≡ send_frame 1 (codes "{\"type\":\"command_result\",\"status\":\"not_supported\"}")
unfolding client_read_loop send_frame frame_header read_frame
text_refused = refl

-- Only "2e" is a number here.
abbrev test_hex : Bytes → Option ℕ
test_hex s = if s =? codes "2e" then some 46 else none

dots_refused : resolve_path test_hex (codes "/www") (codes "/%2e%2e/etc?x") ≡ []
unfolding resolve_path url_decode_path
dots_refused = refl

abbrev test_picture : ℕ → CameraFrame
test_picture format = record {
  frame_id = 1;
  timestamp_ns = 2;
  width = 640;
  height = 480;
  pixel_format = format;
  frame_size = 3;
  payload = 1 ∷ 2 ∷ 3 ∷ [];
}

abbrev test_pictures : List (CameraFrame × ℕ × ℕ)
test_pictures = (test_picture 5, 10, 11) ∷ (test_picture 5, 12, 13) ∷ (test_picture 1, 14, 15) ∷ []

frames_counted_once_example :
    let p = submit_all (set_packet_callback (set_max_fps new_pipeline 10) true) test_pictures in
    (p.stats.input_frames ≡ u64 3)
    × (u64 (p.stats.published_frames + p.stats.dropped_frames) ≡ u64 3)
    × (p.stats.unsupported_frames ≡ u64 (tally is_unsupported test_pictures))
    × (u64 (length p.packets) ≡ p.stats.published_frames)
frames_counted_once_example = frames_counted_once 10 test_pictures

abbrev served_key : FrameKey
served_key = record { stream_id = 0; frame_id = 7; buffer_id = 1 }

abbrev served_calls : List Call
served_calls =
    connects 9
    ∷ frames 100 served_key (1 ∷ 2 ∷ [])
    ∷ sends 9 (make_release_frame 0 7 1 1 ok 5)
    ∷ leaves 9
    ∷ sweeps 5000
    ∷ drops 2
    ∷ stops
    ∷ []

server_started :
    (start_server (new_server 1000) (codes "/run/release") true (some 3) true true).1 ≡ true
unfolding start_server new_server
server_started = refl

callback_told_once_example :
    let s = (start_server (new_server 1000) (codes "/run/release") true (some 3) true true).0 in
    let t = answer_all s served_calls in
    entered served_key t.accepted ≡ reclaimed served_key t.calls + held served_key t.tracker
callback_told_once_example =
    callback_told_once 1000 3 (codes "/run/release") true true served_calls served_key
      server_started

abbrev one_client : Server
one_client =
    accept_client (start_server (new_server 1000) (codes "/run/release") true (some 3) true true).0
      9

one_client_served :
    (one_client.is_running ≡ true)
    × (count 9 one_client.clients ≡ 1)
    × (count 9 (loop_fds one_client.threads) ≡ 1)
unfolding start_server new_server accept_client
one_client_served = (refl, refl, refl)

stop_closes_twice_example : count 9 one_client.closed + 2 ≤ count 9 (stop_server one_client).closed
stop_closes_twice_example =
    stop_closes_twice one_client 9 one_client_served.0 one_client_served.1 one_client_served.2

header_found :
    extract_header
      (codes "GET / HTTP/1.1\r\nHost: cam\r\nUPGRADE:  websocket \r\n\r\n")
      (codes "Upgrade")
    ≡ codes "websocket"
unfolding extract_header trim to_lower
header_found = refl

-- A stream id that ends in a backslash is not escaped, so the codec server finds none in the line.
stream_id_changed :
    extract_string_field
      (record_command
        (λ n. codes "7")
        (codes "/rec")
        7
        (codes "{\"stream_id\":\"a\\\",\"enabled\":false}"))
      (codes "stream_id")
    ≡ none
unfolding extract_string_field record_command find_string
stream_id_changed = refl
