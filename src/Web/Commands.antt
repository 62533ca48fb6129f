-- ===== src/Web/Commands.antt =====
-- The text of extensions/web_preview/gateway/src/web_server.cpp: the headers of a request, the record
-- command of a browser, and the status. The clock and the printing of numbers are arguments.
use camera_subsystem.Prelude.{
  ℕ, ◌+◌, Bool, ◌&&◌, ◌||◌, Option, none, some, List, [], ◌∷◌, map, leb, ◌==◌, if◌then◌else◌, Bytes,
  codes, is_empty, bytes_eq, nat_eq, ◌=?◌,
}
use camera_subsystem.Codec.Protocol.{find_after, quoted, joined}
use camera_subsystem.Web.Pipeline.{StreamStats, web_format_to_string}

-- `std::isspace` in the C locale.
abbrev pub is_space : ℕ → Bool
is_space c = c == 32 || (leb 9 c && leb c 13)

abbrev pub trim_front : Bytes → Bytes
trim_front [] = []
trim_front (c ∷ cs) = let rest = trim_front cs in if is_space c then rest else c ∷ cs

-- A byte in front of a text whose blanks at the end are gone.
abbrev pub keep_front : ℕ → Bytes → Bytes
keep_front c rest = if is_empty rest && is_space c then [] else c ∷ rest

abbrev pub trim_back : Bytes → Bytes
trim_back [] = []
trim_back (c ∷ cs) = keep_front c (trim_back cs)

unfoldable pub trim : Bytes → Bytes
trim s = trim_back (trim_front s)

abbrev pub lower : ℕ → ℕ
lower c = if leb 65 c && leb c 90 then c + 32 else c

unfoldable pub to_lower : Bytes → Bytes
to_lower s = map lower s

-- The text before the first colon, and the one after it.
abbrev pub cons_first : ℕ → Option (Bytes × Bytes) → Option (Bytes × Bytes)
cons_first c none = none
cons_first c (some (name, value)) = some (c ∷ name, value)

abbrev pub split_colon : Bytes → Option (Bytes × Bytes)
split_colon [] = none
split_colon (c ∷ cs) =
    let rest = cons_first c (split_colon cs) in if c == 58 then some ([], cs) else rest

-- `std::getline`: the lines of a text, with the last one if it is not empty.
abbrev pub add_first : ℕ → List Bytes → List Bytes
add_first c [] = (c ∷ []) ∷ []
add_first c (l ∷ ls) = (c ∷ l) ∷ ls

abbrev pub lines : Bytes → List Bytes
lines [] = []
lines (c ∷ cs) = let rest = lines cs in if c == 10 then [] ∷ rest else add_first c rest

-- `\r` at the end of a line is taken off.
abbrev pub drop_return : Bytes → Bytes
drop_return [] = []
drop_return (c ∷ []) = if c == 13 then [] else c ∷ []
drop_return (c ∷ d ∷ rest) = c ∷ drop_return (d ∷ rest)

abbrev pub header_in : Bytes → Option (Bytes × Bytes) → Bytes → Bytes
header_in name none next = next
header_in name (some (key, value)) next = if to_lower key =? to_lower name then trim value else next

abbrev pub header_from : List Bytes → Bytes → Bytes
header_from [] name = []
header_from (l ∷ ls) name = header_in name (split_colon (drop_return l)) (header_from ls name)

unfoldable pub extract_header : Bytes → Bytes → Bytes
extract_header request name = header_from (lines request) name

-- ':' and blanks are skipped, from the colon on.
abbrev pub skip_colons : Bytes → Bytes
skip_colons [] = []
skip_colons (c ∷ cs) =
    let rest = skip_colons cs in if c == 58 || c == 32 || c == 9 then rest else c ∷ cs

abbrev pub cons_text : ℕ → Option Bytes → Option Bytes
cons_text c none = none
cons_text c (some s) = some (c ∷ s)

abbrev pub before_quote : Bytes → Option Bytes
before_quote [] = none
before_quote (c ∷ cs) =
    let rest = cons_text c (before_quote cs) in if c == 34 then some [] else rest

abbrev pub before_end : Bytes → Bytes
before_end [] = []
before_end (c ∷ cs) =
    let rest = c ∷ before_end cs in if c == 44 || c == 125 || c == 32 || c == 9 then [] else rest

abbrev pub or_empty : Option Bytes → Bytes
or_empty none = []
or_empty (some s) = s

abbrev pub value_at : Bytes → Bytes
value_at [] = []
value_at (c ∷ cs) = if c == 34 then or_empty (before_quote cs) else before_end (c ∷ cs)

abbrev pub value_after : Option Bytes → Bytes
value_after none = []
value_after (some s) = value_at (skip_colons s)

abbrev pub colon_after : Option Bytes → Option Bytes
colon_after none = none
colon_after (some s) = find_after (codes ":") s

-- The lambda of HandleRecordCommand; a key without a colon after it gives the empty text.
unfoldable pub find_string : Bytes → Bytes → Bytes
find_string payload key = value_after (colon_after (find_after (quoted key) payload))

-- HandleRecordCommand up to the line that goes to the codec server, at time `now`.
unfoldable pub record_command : (ℕ → Bytes) → Bytes → ℕ → Bytes → Bytes
record_command to_string output_dir now payload =
    let asked = find_string payload (codes "stream_id") in
    let stream_id = if is_empty asked then codes "usb_camera_0" else asked in
    let enabled = find_string payload (codes "enabled") in
    if enabled =? codes "true" || enabled =? codes "1"
    then joined (
        codes "{\"type\":\"start_recording\",\"request_id\":\"web-"
        ∷ to_string now
        ∷ codes "\",\"stream_id\":\""
        ∷ stream_id
        ∷ codes "\",\"output_dir\":\""
        ∷ output_dir
        ∷ codes "\"}"
        ∷ [])
    else joined (
        codes "{\"type\":\"stop_recording\",\"request_id\":\"web-"
        ∷ to_string now
        ∷ codes "\",\"stream_id\":\""
        ∷ stream_id
        ∷ codes "\"}"
        ∷ [])

unfoldable pub build_record_error_json : Bytes → Bytes → Bytes
build_record_error_json stream_id error_text = joined (
    codes "{\"type\":\"record_status\",\"stream_id\":\""
    ∷ stream_id
    ∷ codes "\",\"recording\":false,\"error\":\""
    ∷ error_text
    ∷ codes "\"}"
    ∷ [])

unfoldable pub build_status_json : (ℕ → Bytes) → StreamStats → Bytes
build_status_json to_string s = joined (
    codes "{\"type\":\"status\",\"stream_id\":\"usb_camera_0\",\"status\":\""
    ∷ s.status
    ∷ codes "\",\"width\":"
    ∷ to_string s.width
    ∷ codes ",\"height\":"
    ∷ to_string s.height
    ∷ codes ",\"format\":\""
    ∷ web_format_to_string s.pixel_format
    ∷ codes "\",\"input_frames\":"
    ∷ to_string s.input_frames
    ∷ codes ",\"published_frames\":"
    ∷ to_string s.published_frames
    ∷ codes ",\"dropped_frames\":"
    ∷ to_string s.dropped_frames
    ∷ codes ",\"unsupported_frames\":"
    ∷ to_string s.unsupported_frames
    ∷ codes "}"
    ∷ [])
