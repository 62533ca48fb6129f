-- ===== src/Web/Masks.antt =====
-- WebSocket frames as the two ends of a connection write them (RFC 6455), and what ClientReadLoop of
-- extensions/web_preview/gateway/src/web_server.cpp reads from them: the frames of a browser are
-- masked, those of the gateway are not.
use camera_subsystem.Prelude.{
  ℕ, zero, suc, ◌+◌, ◌%◌, ◌/◌, ◌^◌, ◌<◌, ◌≡◌, refl, ap, sym, ◌∙◌, Bool, true, false, ◌&&◌, Option,
  none, some, [], ◌∷◌, ◌++◌, arith, ltb, leb, ◌==◌, ==_iff, if◌then◌else◌, Bool-cases, inl, inr,
  length, get_elem?, Bytes, bytes_eq, nat_eq,
}
use camera_subsystem.Web.Frames.{
  Frame, append_network16, append_network64, send_frame, frame_header, read_full, read_payload,
  read_sized, read_frame, mask_at, unmask_from, max_control_payload, read_full-append,
  network16_read, network64_read, opcode_kept,
}
use Prim.Native.Nat.{bit_xor}
use mathlib.Core.List.{append_assoc}

abbrev all_below : ℕ → (ℕ → Bool) → Bool
all_below zero p = true
all_below (suc n) p = p n && all_below n p

all_below-at : (n : ℕ) (p : ℕ → Bool) (x : ℕ) → all_below n p ≡ true → x < n → p x ≡ true
all_below-at zero p x h lt = absurd (omega arith)
all_below-at (suc n) p x h lt = ground (arith, all_below-at n p x)

xor_table : all_below 256 (λ x. all_below 256 (λ m. bit_xor (bit_xor x m) m == x)) ≡ true
xor_table = refl

-- Taking a mask off a byte gives back what it was put on.
pub unmask_mask : (x m : ℕ) → x < 256 → m < 256 → bit_xor (bit_xor x m) m ≡ x
unmask_mask x m hx hm = (==_iff _ x).0 (
    all_below-at 256 (λ k. bit_xor (bit_xor x k) k == x) m
      (all_below-at 256 (λ k. all_below 256 (λ m. bit_xor (bit_xor k m) m == k)) x xor_table hx) hm)

pub record Mask : Type 0 where
  pub first : ℕ
  pub second : ℕ
  pub third : ℕ
  pub fourth : ℕ

abbrev pub mask_bytes : Mask → Bytes
mask_bytes m = m.first ∷ m.second ∷ m.third ∷ m.fourth ∷ []

abbrev octet : Mask → ℕ → ℕ
octet m zero = m.first
octet m (suc zero) = m.second
octet m (suc (suc zero)) = m.third
octet m (suc (suc (suc i))) = m.fourth

-- The payload from index `i` on, each byte with the byte of the mask at its index modulo four.
abbrev pub mask_on : Mask → ℕ → Bytes → Bytes
mask_on m i [] = []
mask_on m i (x ∷ xs) = bit_xor x (octet m (i % 4)) ∷ mask_on m (suc i) xs

-- The length of a payload after the first byte of a frame, with the bit that says it is masked.
abbrev pub length_bytes : Bool → ℕ → Bytes
length_bytes masked n =
    let bit = if masked then 128 else 0 in
    if leb n 125
    then (bit + n) ∷ []
    else (if leb n 65535
        then (bit + 126) ∷ append_network16 n
        else (bit + 127) ∷ append_network64 n)

-- A frame and what follows it: of the gateway without a mask, of a browser with one.
abbrev pub wire : ℕ → Option Mask → Bytes → Bytes → Bytes
wire opcode none body rest = send_frame opcode body ++ rest
wire opcode (some m) body rest =
    (128 + opcode % 16)
    ∷ (length_bytes true (length body) ++ (mask_bytes m ++ (mask_on m 0 body ++ rest)))

abbrev pub AreBytes : Bytes → Type 0
AreBytes [] = Unit
AreBytes (x ∷ xs) = (x < 256) × AreBytes xs

abbrev pub MaskFits : Option Mask → Type 0
MaskFits none = Unit
MaskFits (some m) = AreBytes (mask_bytes m)

octet-fits : (m : Mask) (i : ℕ) → AreBytes (mask_bytes m) → octet m i < 256
octet-fits m zero h = h.0
octet-fits m (suc zero) h = h.1.0
octet-fits m (suc (suc zero)) h = h.1.1.0
octet-fits m (suc (suc (suc i))) h = h.1.1.1.0

-- What the reader takes for index `r` below four.
picked : (m : Mask) (r : ℕ) → r < 4 → get_elem? (mask_bytes m) r ≡ some (octet m r)
picked m zero h = refl
picked m (suc zero) h = refl
picked m (suc (suc zero)) h = refl
picked m (suc (suc (suc zero))) h = refl
picked m (suc (suc (suc (suc r)))) h = absurd (omega (arith, h))

mask_at-octet : (m : Mask) (i : ℕ) → mask_at (mask_bytes m) i ≡ octet m (i % 4)
mask_at-octet m i = ap (λ o. elim o [ none ↦ 0 | some x ↦ x ]) (picked m (i % 4) (omega arith))

unmask_from-mask_on :
    (m : Mask) (i : ℕ) (body : Bytes)
    → AreBytes (mask_bytes m)
    → AreBytes body
    → unmask_from (mask_bytes m) i (mask_on m i body) ≡ body
unmask_from-mask_on m i [] hm h = refl
unmask_from-mask_on m i (x ∷ xs) hm h =
    let key = octet m (i % 4) in
    ap (λ k. bit_xor (bit_xor x key) k ∷ unmask_from (mask_bytes m) (suc i) (mask_on m (suc i) xs))
      (mask_at-octet m i)
    ∙ ap (λ b. b ∷ unmask_from (mask_bytes m) (suc i) (mask_on m (suc i) xs))
        (unmask_mask x key h.0 (octet-fits m (i % 4) hm))
    ∙ ap (λ s. x ∷ s) (unmask_from-mask_on m (suc i) xs hm h.1)

length-mask_on : (m : Mask) (i : ℕ) (body : Bytes) → length (mask_on m i body) ≡ length body
length-mask_on m i [] = refl
length-mask_on m i (x ∷ xs) = omega (arith, length-mask_on m (suc i) xs)

-- The header is read as the length that was written.
length_bytes_read :
    (opcode n : ℕ) (masked : Bool) (tail : Bytes)
    → opcode < 16
    → n < 2 ^ 63
    → read_frame ((128 + opcode % 16) ∷ (length_bytes masked n ++ tail))
      ≡ read_sized opcode masked n tail
unfolding read_frame
length_bytes_read opcode n true tail op size =
    let kept = opcode_kept opcode op in
    elim (Bool-cases (leb n 125)) [
      | inl short ↦
          let whole : (128 + n) % 128 ≡ n = ground (arith, short) in
          let bit : ((128 + n) / 2 ^ 7 % 2 == 0) ≡ false = ground (arith, short) in
          let not_two : (n == 126) ≡ false = ground (arith, short) in
          let not_eight : (n == 127) ≡ false = ground (arith, short) in
          rw (short, kept, whole, bit, not_two, not_eight) refl
      | inr more ↦ elim (Bool-cases (leb n 65535)) [
        | inl medium ↦
            rw (more, medium, kept)
              (ap (λ k. read_sized opcode true k tail) (network16_read n (ground (arith, medium))))
        | inr long ↦
            rw (more, long, kept)
              (ap (λ k. read_sized opcode true k tail) (network64_read n (omega (arith, size))))
      ]
    ]
length_bytes_read opcode n false tail op size =
    let kept = opcode_kept opcode op in
    elim (Bool-cases (leb n 125)) [
      | inl short ↦
          let whole : (0 + n) % 128 ≡ n = ground (arith, short) in
          let bit : ((0 + n) / 2 ^ 7 % 2 == 0) ≡ true = ground (arith, short) in
          let not_two : (n == 126) ≡ false = ground (arith, short) in
          let not_eight : (n == 127) ≡ false = ground (arith, short) in
          rw (short, kept, whole, bit, not_two, not_eight) refl
      | inr more ↦ elim (Bool-cases (leb n 65535)) [
        | inl medium ↦
            rw (more, medium, kept)
              (ap (λ k. read_sized opcode false k tail) (network16_read n (ground (arith, medium))))
        | inr long ↦
            rw (more, long, kept)
              (ap (λ k. read_sized opcode false k tail) (network64_read n (omega (arith, size))))
      ]
    ]

read_masked_body :
    (opcode : ℕ) (m : Mask) (body rest : Bytes)
    → AreBytes (mask_bytes m)
    → AreBytes body
    → read_payload opcode (some (mask_bytes m)) (read_full (length body) (mask_on m 0 body ++ rest))
      ≡ some (record { opcode = opcode; payload = body; rest = rest })
read_masked_body opcode m body rest hm h =
    ap (λ n. read_payload opcode (some (mask_bytes m)) (read_full n (mask_on m 0 body ++ rest)))
      (sym (length-mask_on m 0 body))
    ∙ ap (read_payload opcode (some (mask_bytes m))) (read_full-append (mask_on m 0 body) rest)
    ∙ ap (λ s. some (record { opcode = opcode; payload = s; rest = rest }))
        (unmask_from-mask_on m 0 body hm h)

abbrev pub read_outcome : ℕ → Bytes → Bytes → Option Frame
read_outcome opcode body rest =
    if leb (length body) max_control_payload
    then some (record { opcode = opcode; payload = body; rest = rest })
    else none

read_sized_plain :
    (opcode : ℕ) (body rest : Bytes)
    → read_sized opcode false (length body) (body ++ rest) ≡ read_outcome opcode body rest
read_sized_plain opcode body rest = elim (Bool-cases (leb (length body) max_control_payload)) [
  | inl fits ↦
      let not_long : ltb max_control_payload (length body) ≡ false = ground (arith, fits) in
      rw (fits, not_long) (ap (read_payload opcode none) (read_full-append body rest))
  | inr long ↦
      let too_long : ltb max_control_payload (length body) ≡ true = ground (arith, long) in
      rw (long, too_long) refl
]

read_sized_masked :
    (opcode : ℕ) (m : Mask) (body rest : Bytes)
    → AreBytes (mask_bytes m)
    → AreBytes body
    → read_sized opcode true (length body) (mask_bytes m ++ (mask_on m 0 body ++ rest))
      ≡ read_outcome opcode body rest
read_sized_masked opcode m body rest hm h =
    elim (Bool-cases (leb (length body) max_control_payload)) [
      | inl fits ↦
          let not_long : ltb max_control_payload (length body) ≡ false = ground (arith, fits) in
          rw (fits, not_long) (read_masked_body opcode m body rest hm h)
      | inr long ↦
          let too_long : ltb max_control_payload (length body) ≡ true = ground (arith, long) in
          rw (long, too_long) refl
    ]

frame_header-length_bytes :
    (opcode n : ℕ) → frame_header opcode n ≡ (128 + opcode % 16) ∷ length_bytes false n
unfolding frame_header
frame_header-length_bytes opcode n = elim (Bool-cases (leb n 125)) [
  | inl short ↦
      let same : n ≡ 0 + n = omega arith in rw short (ap (λ k. (128 + opcode % 16) ∷ k ∷ []) same)
  | inr more ↦ elim (Bool-cases (leb n 65535)) [
    | inl medium ↦ rw (more, medium) refl
    | inr long ↦ rw (more, long) refl
  ]
]

-- A frame with an opcode of four bits, be it written by SendWebSocketFrame or masked by a browser,
-- is read by ClientReadLoop's reading as that opcode and that payload, without the mask, and what
-- follows the frame is left, when the payload is at most 64 KiB long; a longer one, below 2^63
-- bytes, is not read.
pub frame_read_back :
    (opcode : ℕ) (mask : Option Mask) (body rest : Bytes)
    → opcode < 16
    → MaskFits mask
    → AreBytes body
    → length body < 2 ^ 63
    → read_frame (wire opcode mask body rest) ≡ read_outcome opcode body rest
unfolding send_frame
frame_read_back opcode none body rest op hm h size =
    ap (λ s. read_frame ((s ++ body) ++ rest)) (frame_header-length_bytes opcode (length body))
    ∙ ap (λ s. read_frame ((128 + opcode % 16) ∷ s))
        (append_assoc (length_bytes false (length body)) body rest)
    ∙ length_bytes_read opcode (length body) false (body ++ rest) op size
    ∙ read_sized_plain opcode body rest
frame_read_back opcode (some m) body rest op hm h size =
    length_bytes_read opcode (length body) true (mask_bytes m ++ (mask_on m 0 body ++ rest)) op size
    ∙ read_sized_masked opcode m body rest hm h
