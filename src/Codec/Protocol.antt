-- ===== src/Codec/Protocol.antt =====
-- extensions/codec_server/src/codec_control_protocol.cpp: the lines of JSON between the codec server
-- and its clients. `std::strtoul` is an argument: the number at the start of a text, if there is
-- one; so is the printing of a number. The pointers that the parser is given are not null.
use camera_subsystem.Prelude.{
  ℕ, ◌≡◌, refl, sym, ap, ◌∙◌, inl, inr, Bool, true, false, not, ◌||◌, Option, none, some, List, [],
  ◌∷◌, ◌++◌, ltb, ◌==◌, if◌then◌else◌, ==_iff, Bool-cases, Bytes, codes, is_empty, bytes_eq, nat_eq,
  ◌=?◌,
}
use mathlib.Core.List.{append_assoc, append-nil}
use camera_subsystem.Codec.Session.{Profile, Request, Status}

abbrev pub escape_char : ℕ → Bytes
escape_char c =
    if c == 92
    then 92 ∷ 92 ∷ []
    else (if c == 34
        then 92 ∷ 34 ∷ []
        else (if c == 10
            then 92 ∷ 110 ∷ []
            else (if c == 13 then 92 ∷ 114 ∷ [] else (if c == 9 then 92 ∷ 116 ∷ [] else c ∷ []))))

abbrev pub json_escape : Bytes → Bytes
json_escape [] = []
json_escape (c ∷ cs) = escape_char c ++ json_escape cs

abbrev pub unescape_char : ℕ → ℕ
unescape_char c = if c == 110 then 10 else (if c == 114 then 13 else (if c == 116 then 9 else c))

-- The loop of ExtractStringField, after the opening quote: `escaped` and `out` are its variables.
abbrev pub read_from : Bool → Bytes → Bytes → Option Bytes
read_from escaped out [] = none
read_from true out (c ∷ cs) = read_from false (out ++ unescape_char c ∷ []) cs
read_from false out (c ∷ cs) =
    let skipped = read_from true out cs in
    let taken = read_from false (out ++ c ∷ []) cs in
    if c == 92 then skipped else (if c == 34 then some out else taken)

-- What follows `pattern` at the start of a text.
abbrev pub after_prefix : Bytes → Bytes → Option Bytes
after_prefix [] s = some s
after_prefix (p ∷ ps) [] = none
after_prefix (p ∷ ps) (c ∷ cs) = let rest = after_prefix ps cs in if p == c then rest else none

abbrev pub or_next : Option Bytes → Option Bytes → Option Bytes
or_next none next = next
or_next (some s) next = some s

-- `find`, with what follows the place that it finds.
abbrev pub find_after : Bytes → Bytes → Option Bytes
find_after pattern [] = after_prefix pattern []
find_after pattern (c ∷ cs) = or_next (after_prefix pattern (c ∷ cs)) (find_after pattern cs)

abbrev pub and_find : Bytes → Option Bytes → Option Bytes
and_find pattern none = none
and_find pattern (some s) = find_after pattern s

abbrev pub quoted : Bytes → Bytes
quoted key = codes "\"" ++ key ++ codes "\""

abbrev pub read_found : Option Bytes → Option Bytes
read_found none = none
read_found (some s) = read_from false [] s

unfoldable pub extract_string_field : Bytes → Bytes → Option Bytes
extract_string_field line key =
    read_found (and_find (codes "\"") (and_find (codes ":") (find_after (quoted key) line)))

abbrev pub skip_blanks : Bytes → Bytes
skip_blanks [] = []
skip_blanks (c ∷ cs) = let rest = skip_blanks cs in if c == 32 || c == 9 then rest else c ∷ cs

abbrev pub in_u32 : Option ℕ → Option ℕ
in_u32 none = none
in_u32 (some n) = if ltb 4294967295 n then none else some n

abbrev pub number_at : (Bytes → Option ℕ) → Option Bytes → Option ℕ
number_at strtoul none = none
number_at strtoul (some s) = in_u32 (strtoul (skip_blanks s))

unfoldable pub extract_uint32_field : (Bytes → Option ℕ) → Bytes → Bytes → Option ℕ
extract_uint32_field strtoul line key =
    number_at strtoul (and_find (codes ":") (find_after (quoted key) line))

pub data Command : Type 0 where
  start_command stop_command status_command unknown_command : Command

unfoldable pub parse_command : Bytes → Command
parse_command text =
    if text =? codes "start_recording"
    then start_command
    else (if text =? codes "stop_recording"
        then stop_command
        else (if text =? codes "status" then status_command else unknown_command))

pub data Parsed : Type 0 where
  accepted : Command → Request → Parsed
  rejected : Bytes → Parsed

abbrev pub or_value {ℓ} : {A : Type ℓ} → Option A → A → A
or_value none a = a
or_value (some x) a = x

abbrev pub is_known : Command → Bool
is_known unknown_command = false
is_known _ = true

abbrev pub read_fields : (Bytes → Option ℕ) → Bytes → Request
read_fields strtoul line =
    let text : Bytes → Bytes → Bytes =
      λ key default. or_value (extract_string_field line key) default in
    let number : Bytes → ℕ = λ key. or_value (extract_uint32_field strtoul line key) 0 in
    record {
      request_id = text (codes "request_id") [];
      stream_id = text (codes "stream_id") [];
      codec = text (codes "codec") (codes "h264");
      container = text (codes "container") (codes "raw_h264");
      output_dir = text (codes "output_dir") [];
      profile = record {
        width = number (codes "width");
        height = number (codes "height");
        fps = number (codes "fps");
        bitrate = number (codes "bitrate");
        gop = number (codes "gop");
      };
    }

abbrev pub checked : Command → Request → Parsed
checked c q =
    if is_empty q.stream_id
    then rejected (codes "missing_stream_id")
    else (if not (q.codec =? codes "h264")
        then rejected (codes "unsupported_codec")
        else (if not (q.container =? codes "raw_h264")
            then rejected (codes "unsupported_container")
            else accepted c q))

abbrev pub parse_typed : (Bytes → Option ℕ) → Bytes → Option Bytes → Parsed
parse_typed strtoul line none = rejected (codes "missing_type")
parse_typed strtoul line (some text) =
    let c = parse_command text in
    if is_known c then checked c (read_fields strtoul line) else rejected (codes "unknown_command")

unfoldable pub parse_request_line : (Bytes → Option ℕ) → Bytes → Parsed
parse_request_line strtoul line =
    parse_typed strtoul line (extract_string_field line (codes "type"))

abbrev pub joined : List Bytes → Bytes
joined [] = []
joined (s ∷ ss) = s ++ joined ss

-- The members of the profile that are not zero; `first` is the variable of that name.
abbrev pub profile_members : (ℕ → Bytes) → Bool → List (Bytes × ℕ) → Bytes
profile_members to_string first [] = []
profile_members to_string first ((name, value) ∷ rest) =
    let later = profile_members to_string false rest in
    let unchanged = profile_members to_string first rest in
    if ltb 0 value
    then joined
        ((if first then [] else codes ",") ∷ quoted name ∷ codes ":" ∷ to_string value ∷ later ∷ [])
    else unchanged

abbrev pub has_profile : Profile → Bool
has_profile p = ltb 0 p.width || ltb 0 p.height || ltb 0 p.fps || ltb 0 p.bitrate || ltb 0 p.gop

abbrev pub profile_text : (ℕ → Bytes) → Profile → Bytes
profile_text to_string p =
    if has_profile p
    then joined (
        codes ",\"profile\":{"
        ∷ profile_members to_string true (
            (codes "width", p.width)
            ∷ (codes "height", p.height)
            ∷ (codes "fps", p.fps)
            ∷ (codes "bitrate", p.bitrate)
            ∷ (codes "gop", p.gop)
            ∷ [])
        ∷ codes "}"
        ∷ [])
    else []

abbrev pub error_text : Bytes → Bytes
error_text e =
    if is_empty e then [] else joined (codes ",\"error\":\"" ∷ json_escape e ∷ codes "\"" ∷ [])

unfoldable pub serialize_status : (ℕ → Bytes) → Status → Bytes
serialize_status to_string s = joined (
    codes "{\"type\":\"record_status\",\"request_id\":\""
    ∷ json_escape s.request_id
    ∷ codes "\",\"stream_id\":\""
    ∷ json_escape s.stream_id
    ∷ codes "\",\"recording\":"
    ∷ (if s.recording then codes "true" else codes "false")
    ∷ codes ",\"state\":\""
    ∷ json_escape s.state
    ∷ codes "\",\"codec\":\""
    ∷ json_escape s.codec
    ∷ codes "\",\"container\":\""
    ∷ json_escape s.container
    ∷ codes "\",\"file\":\""
    ∷ json_escape s.file
    ∷ codes "\",\"encoded_frames\":"
    ∷ to_string s.encoded_frames
    ∷ codes ",\"decoded_frames\":"
    ∷ to_string s.decoded_frames
    ∷ codes ",\"dropped_frames\":"
    ∷ to_string s.dropped_frames
    ∷ codes ",\"input_frames\":"
    ∷ to_string s.input_frames
    ∷ codes ",\"decode_failures\":"
    ∷ to_string s.decode_failures
    ∷ codes ",\"write_failures\":"
    ∷ to_string s.write_failures
    ∷ error_text s.error
    ∷ profile_text to_string s.profile
    ∷ codes "}"
    ∷ [])

read_from-escape_char :
    (out : Bytes) (c : ℕ) (cs : Bytes)
    → read_from false out (escape_char c ++ cs) ≡ read_from false (out ++ c ∷ []) cs
read_from-escape_char out c cs =
    let swap : (n : ℕ)
        → (c == n) ≡ true
        → read_from false (out ++ n ∷ []) cs ≡ read_from false (out ++ c ∷ []) cs =
      λ n e. ap (λ x. read_from false (out ++ x ∷ []) cs) (sym ((==_iff c n).0 e)) in
    elim (Bool-cases (c == 92)) [
      | inl e ↦ rw e (swap 92 e)
      | inr a1 ↦ elim (Bool-cases (c == 34)) [
        | inl e ↦ rw (a1, e) (swap 34 e)
        | inr a2 ↦ elim (Bool-cases (c == 10)) [
          | inl e ↦ rw (a1, a2, e) (swap 10 e)
          | inr a3 ↦ elim (Bool-cases (c == 13)) [
            | inl e ↦ rw (a1, a2, a3, e) (swap 13 e)
            | inr a4 ↦ elim (Bool-cases (c == 9)) [
              | inl e ↦ rw (a1, a2, a3, a4, e) (swap 9 e)
              | inr a5 ↦ rw (a1, a2, a3, a4, a5, a1, a2) refl
            ]
          ]
        ]
      ]
    ]

-- What JsonEscape writes, ExtractStringField's loop reads back, up to the quote that closes it.
pub escaped_text_read :
    (out value rest : Bytes)
    → read_from false out (json_escape value ++ 34 ∷ rest) ≡ some (out ++ value)
escaped_text_read out [] rest = ap (λ o. some o) (sym (append-nil out))
escaped_text_read out (c ∷ cs) rest =
    ap (read_from false out) (append_assoc (escape_char c) (json_escape cs) (34 ∷ rest))
    ∙ read_from-escape_char out c (json_escape cs ++ 34 ∷ rest)
    ∙ escaped_text_read (out ++ c ∷ []) cs rest
    ∙ ap (λ o. some o) (append_assoc out (c ∷ []) cs)

-- Whatever bytes a request's id has, a client that extracts "request_id" from the status line gets
-- that id back.
pub request_id_survives :
    (to_string : ℕ → Bytes) (s : Status)
    → extract_string_field (serialize_status to_string s) (codes "request_id") ≡ some s.request_id
unfolding extract_string_field serialize_status
request_id_survives to_string s = escaped_text_read [] s.request_id _
