-- ===== src/Web/Frames.antt =====
-- The WebSocket frames of extensions/web_preview/gateway/src/web_server.cpp: what SendWebSocketFrame
-- writes, and what ClientReadLoop reads. The bytes of a connection are a list.
use camera_subsystem.Prelude.{
  ℕ, zero, suc, ◌+◌, ◌*◌, ◌/◌, ◌%◌, ◌^◌, ◌<◌, ◌≡◌, refl, ap, ◌∙◌, Bool, not, Option, none, some, [],
  ◌∷◌, ◌++◌, arith, ltb, leb, ◌==◌, if◌then◌else◌, length, get_elem?, Bytes, bytes_eq, nat_eq,
}
use Prim.Native.Nat.{bit_xor}

abbrev pub append_network16 : ℕ → Bytes
append_network16 value = (value / 2 ^ 8) % 256 ∷ value % 256 ∷ []

-- The loop of AppendNetwork64, for `i` from 7 down to 0.
abbrev pub append_network64 : ℕ → Bytes
append_network64 value =
    (value / 2 ^ 56) % 256
    ∷ (value / 2 ^ 48) % 256
    ∷ (value / 2 ^ 40) % 256
    ∷ (value / 2 ^ 32) % 256
    ∷ (value / 2 ^ 24) % 256
    ∷ (value / 2 ^ 16) % 256
    ∷ (value / 2 ^ 8) % 256
    ∷ value % 256
    ∷ []

-- The loop of ReadNetwork64 over the bytes, from what is read so far; ReadNetwork16 is the same over
-- two bytes.
abbrev pub read_network : ℕ → Bytes → ℕ
read_network value [] = value
read_network value (b ∷ bs) = read_network ((value * 256 + b) % 2 ^ 64) bs

unfoldable pub frame_header : ℕ → ℕ → Bytes
frame_header opcode size =
    let first = 128 + opcode % 16 in
    if leb size 125
    then first ∷ size ∷ []
    else (if leb size 65535
        then first ∷ 126 ∷ append_network16 size
        else first ∷ 127 ∷ append_network64 size)

-- The bytes that SendWebSocketFrame writes; `size_t` is of 64 bits.
unfoldable pub send_frame : ℕ → Bytes → Bytes
send_frame opcode body = frame_header opcode (length body) ++ body

-- ReadFull of `n` bytes: the bytes, and what follows; none when the connection ends before.
abbrev pub with_byte : ℕ → Option (Bytes × Bytes) → Option (Bytes × Bytes)
with_byte b none = none
with_byte b (some (taken, rest)) = some (b ∷ taken, rest)

abbrev pub read_full : ℕ → Bytes → Option (Bytes × Bytes)
read_full zero s = some ([], s)
read_full (suc n) [] = none
read_full (suc n) (b ∷ s) = with_byte b (read_full n s)

abbrev pub max_control_payload : ℕ
max_control_payload = 65536

-- The opcode and the payload of a frame, and what follows it.
pub record Frame : Type 0 where
  pub opcode : ℕ
  pub payload : Bytes
  pub rest : Bytes

abbrev pub mask_at : Bytes → ℕ → ℕ
mask_at mask i = elim (get_elem? mask (i % 4)) [ none ↦ 0 | some m ↦ m ]

-- The loop that takes the mask off, from index `i` on.
abbrev pub unmask_from : Bytes → ℕ → Bytes → Bytes
unmask_from mask i [] = []
unmask_from mask i (b ∷ bs) = bit_xor b (mask_at mask i) ∷ unmask_from mask (suc i) bs

abbrev pub read_payload : ℕ → Option Bytes → Option (Bytes × Bytes) → Option Frame
read_payload opcode mask none = none
read_payload opcode none (some (payload, rest)) =
    some (record { opcode = opcode; payload = payload; rest = rest })
read_payload opcode (some mask) (some (payload, rest)) =
    some (record { opcode = opcode; payload = unmask_from mask 0 payload; rest = rest })

abbrev pub read_masked : ℕ → ℕ → Option (Bytes × Bytes) → Option Frame
read_masked opcode size none = none
read_masked opcode size (some (mask, s)) = read_payload opcode (some mask) (read_full size s)

-- After the length; a frame that is too long ends the loop.
abbrev pub read_sized : ℕ → Bool → ℕ → Bytes → Option Frame
read_sized opcode masked size s =
    if ltb max_control_payload size
    then none
    else (if masked
        then read_masked opcode size (read_full 4 s)
        else read_payload opcode none (read_full size s))

abbrev pub read_extended : ℕ → Bool → Option (Bytes × Bytes) → Option Frame
read_extended opcode masked none = none
read_extended opcode masked (some (ext, s)) = read_sized opcode masked (read_network 0 ext) s

abbrev pub read_header : Option (Bytes × Bytes) → Option Frame
read_header (some (b0 ∷ b1 ∷ [], s)) =
    let opcode = b0 % 16 in
    let masked = not (b1 / 2 ^ 7 % 2 == 0) in
    let size = b1 % 128 in
    if size == 126
    then read_extended opcode masked (read_full 2 s)
    else (if size == 127
        then read_extended opcode masked (read_full 8 s)
        else read_sized opcode masked size s)
read_header _ = none

-- A turn of ClientReadLoop up to the handling of the opcode; none ends the loop.
unfoldable pub read_frame : Bytes → Option Frame
read_frame s = read_header (read_full 2 s)

pub read_full-append :
    (body rest : Bytes) → read_full (length body) (body ++ rest) ≡ some (body, rest)
read_full-append [] rest = refl
read_full-append (b ∷ bs) rest = ap (with_byte b) (read_full-append bs rest)

pub network64_read : (n : ℕ) → n < 2 ^ 64 → read_network 0 (append_network64 n) ≡ n
network64_read n h =
    let s0 : (0 * 256 + (n / 2 ^ 56) % 256) % 2 ^ 64 ≡ n / 2 ^ 56 = omega (arith, h) in
    let s1 : ((n / 2 ^ 56) * 256 + (n / 2 ^ 48) % 256) % 2 ^ 64 ≡ n / 2 ^ 48 = omega (arith, h) in
    let s2 : ((n / 2 ^ 48) * 256 + (n / 2 ^ 40) % 256) % 2 ^ 64 ≡ n / 2 ^ 40 = omega (arith, h) in
    let s3 : ((n / 2 ^ 40) * 256 + (n / 2 ^ 32) % 256) % 2 ^ 64 ≡ n / 2 ^ 32 = omega (arith, h) in
    let s4 : ((n / 2 ^ 32) * 256 + (n / 2 ^ 24) % 256) % 2 ^ 64 ≡ n / 2 ^ 24 = omega (arith, h) in
    let s5 : ((n / 2 ^ 24) * 256 + (n / 2 ^ 16) % 256) % 2 ^ 64 ≡ n / 2 ^ 16 = omega (arith, h) in
    let s6 : ((n / 2 ^ 16) * 256 + (n / 2 ^ 8) % 256) % 2 ^ 64 ≡ n / 2 ^ 8 = omega (arith, h) in
    let s7 : ((n / 2 ^ 8) * 256 + n % 256) % 2 ^ 64 ≡ n = omega (arith, h) in
    ap
      (λ v. read_network v (
        (n / 2 ^ 48) % 256
        ∷ (n / 2 ^ 40) % 256
        ∷ (n / 2 ^ 32) % 256
        ∷ (n / 2 ^ 24) % 256
        ∷ (n / 2 ^ 16) % 256
        ∷ (n / 2 ^ 8) % 256
        ∷ n % 256
        ∷ []))
      s0
    ∙ ap
        (λ v. read_network v (
          (n / 2 ^ 40) % 256
          ∷ (n / 2 ^ 32) % 256
          ∷ (n / 2 ^ 24) % 256
          ∷ (n / 2 ^ 16) % 256
          ∷ (n / 2 ^ 8) % 256
          ∷ n % 256
          ∷ []))
        s1
    ∙ ap
        (λ v. read_network v (
          (n / 2 ^ 32) % 256
          ∷ (n / 2 ^ 24) % 256
          ∷ (n / 2 ^ 16) % 256
          ∷ (n / 2 ^ 8) % 256
          ∷ n % 256
          ∷ []))
        s2
    ∙ ap
        (λ v.
          read_network v
            ((n / 2 ^ 24) % 256 ∷ (n / 2 ^ 16) % 256 ∷ (n / 2 ^ 8) % 256 ∷ n % 256 ∷ []))
        s3
    ∙ ap (λ v. read_network v ((n / 2 ^ 16) % 256 ∷ (n / 2 ^ 8) % 256 ∷ n % 256 ∷ [])) s4
    ∙ ap (λ v. read_network v ((n / 2 ^ 8) % 256 ∷ n % 256 ∷ [])) s5
    ∙ ap (λ v. read_network v (n % 256 ∷ [])) s6
    ∙ ap (λ v. read_network v ([])) s7

pub network16_read : (n : ℕ) → n < 2 ^ 16 → read_network 0 (append_network16 n) ≡ n
network16_read n h = omega (arith, h)

pub opcode_kept : (opcode : ℕ) → opcode < 16 → (128 + opcode % 16) % 16 ≡ opcode
opcode_kept opcode h = omega (arith, h)
