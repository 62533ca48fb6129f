-- ===== src/Web/Turns.antt =====
-- That ClientReadLoop of extensions/web_preview/gateway/src/web_server.cpp ends with its input: every
-- turn that goes on has read something.
use camera_subsystem.Prelude.{
  ℕ, zero, suc, ◌/◌, ◌%◌, ◌^◌, ◌≤◌, ◌≡◌, refl, sym, ap, ◌∙◌, Bool, true, false, not, Option, none,
  some, [], ◌∷◌, ◌++◌, arith, ltb, ◌==◌, if◌then◌else◌, length, Bytes, inl, inr, Bool-cases, nat_eq,
}
use camera_subsystem.Web.Frames.{
  Frame, with_byte, read_full, read_payload, read_masked, read_sized, read_extended, read_header,
  read_network, read_frame, max_control_payload,
}
use camera_subsystem.Web.Client.{turn, read_turns, reply, client_read_loop}

-- At most `k` bytes are left.
abbrev LeavesBytes : ℕ → Option (Bytes × Bytes) → Type 0
LeavesBytes k none = Unit
LeavesBytes k (some (taken, rest)) = length rest ≤ k

abbrev LeavesFrame : ℕ → Option Frame → Type 0
LeavesFrame k none = Unit
LeavesFrame k (some frame) = length frame.rest ≤ k

with_byte-LeavesBytes :
    (k : ℕ) (b : ℕ) (o : Option (Bytes × Bytes))
    → LeavesBytes k o
    → LeavesBytes (suc k) (with_byte b o)
with_byte-LeavesBytes k b none h = tt
with_byte-LeavesBytes k b (some (taken, rest)) h = omega (arith, h)

read_full-LeavesBytes : (n : ℕ) (s : Bytes) → LeavesBytes (length s) (read_full n s)
read_full-LeavesBytes zero s = omega arith
read_full-LeavesBytes (suc n) [] = tt
read_full-LeavesBytes (suc n) (b ∷ s) =
    with_byte-LeavesBytes (length s) b (read_full n s) (read_full-LeavesBytes n s)

read_payload-LeavesFrame :
    (k opcode : ℕ) (mask : Option Bytes) (o : Option (Bytes × Bytes))
    → LeavesBytes k o
    → LeavesFrame k (read_payload opcode mask o)
read_payload-LeavesFrame k opcode mask none h = tt
read_payload-LeavesFrame k opcode none (some (payload, rest)) h = h
read_payload-LeavesFrame k opcode (some mask) (some (payload, rest)) h = h

LeavesBytes-weaken :
    (k m : ℕ) (o : Option (Bytes × Bytes)) → k ≤ m → LeavesBytes k o → LeavesBytes m o
LeavesBytes-weaken k m none le h = tt
LeavesBytes-weaken k m (some (taken, rest)) le h = omega (arith, le, h)

LeavesFrame-weaken : (k m : ℕ) (o : Option Frame) → k ≤ m → LeavesFrame k o → LeavesFrame m o
LeavesFrame-weaken k m none le h = tt
LeavesFrame-weaken k m (some frame) le h = omega (arith, le, h)

read_masked-LeavesFrame :
    (k opcode size : ℕ) (o : Option (Bytes × Bytes))
    → LeavesBytes k o
    → LeavesFrame k (read_masked opcode size o)
read_masked-LeavesFrame k opcode size none h = tt
read_masked-LeavesFrame k opcode size (some (mask, s)) h =
    read_payload-LeavesFrame k opcode (some mask) (read_full size s)
      (LeavesBytes-weaken (length s) k (read_full size s) h (read_full-LeavesBytes size s))

read_sized-LeavesFrame :
    (k opcode : ℕ) (masked : Bool) (size : ℕ) (s : Bytes)
    → length s ≤ k
    → LeavesFrame k (read_sized opcode masked size s)
read_sized-LeavesFrame k opcode masked size s h =
    elim (ltb max_control_payload size)
      as (λ long. LeavesFrame k (
        if long
        then none
        else (if masked
            then read_masked opcode size (read_full 4 s)
            else read_payload opcode none (read_full size s)))) [
              | true ↦ tt
              | false ↦
                  elim masked
                    as (λ m. LeavesFrame k (
                      if m
                      then read_masked opcode size (read_full 4 s)
                      else read_payload opcode none (read_full size s))) [
                        | true ↦ read_masked-LeavesFrame k opcode size (read_full 4 s) (
                            LeavesBytes-weaken (length s) k (read_full 4 s) h
                              (read_full-LeavesBytes 4 s))
                        | false ↦ read_payload-LeavesFrame k opcode none (read_full size s) (
                            LeavesBytes-weaken (length s) k (read_full size s) h
                              (read_full-LeavesBytes size s))
                      ]
            ]

read_extended-LeavesFrame :
    (k opcode : ℕ) (masked : Bool) (o : Option (Bytes × Bytes))
    → LeavesBytes k o
    → LeavesFrame k (read_extended opcode masked o)
read_extended-LeavesFrame k opcode masked none h = tt
read_extended-LeavesFrame k opcode masked (some (ext, s)) h =
    read_sized-LeavesFrame k opcode masked (read_network 0 ext) s h

read_header-LeavesFrame :
    (b0 b1 : ℕ) (s : Bytes) → LeavesFrame (length s) (read_header (some (b0 ∷ b1 ∷ [], s)))
read_header-LeavesFrame b0 b1 s =
    let opcode = b0 % 16 in
    let masked = not (b1 / 2 ^ 7 % 2 == 0) in
    elim (Bool-cases (b1 % 128 == 126)) [
      | inl two ↦ rw two (
          read_extended-LeavesFrame (length s) opcode masked (read_full 2 s)
            (read_full-LeavesBytes 2 s))
      | inr other ↦ elim (Bool-cases (b1 % 128 == 127)) [
        | inl eight ↦
            rw (other, eight)
              (read_extended-LeavesFrame (length s) opcode masked (read_full 8 s)
                (read_full-LeavesBytes 8 s))
        | inr short ↦
            rw (other, short)
              (read_sized-LeavesFrame (length s) opcode masked (b1 % 128) s (omega arith))
      ]
    ]

read_frame-LeavesFrame : (b : ℕ) (s : Bytes) → LeavesFrame (length s) (read_frame (b ∷ s))
unfolding read_frame
read_frame-LeavesFrame b [] = tt
read_frame-LeavesFrame b (c ∷ s) =
    LeavesFrame-weaken (length s) (suc (length s)) (read_header (some (b ∷ c ∷ [], s)))
      (omega arith) (read_header-LeavesFrame b c s)

turn-agree :
    (answer : Bytes → Bytes) (k : ℕ) (later later_too : Bytes → Bytes) (o : Option Frame)
    → ((rest : Bytes) → length rest ≤ k → later rest ≡ later_too rest)
    → LeavesFrame k o
    → turn answer later o ≡ turn answer later_too o
turn-agree answer k later later_too none agree h = refl
turn-agree answer k later later_too (some frame) agree h =
    ap (λ x. if frame.opcode == 8 then [] else reply answer frame ++ x) (agree frame.rest h)

read_turns_agree :
    (answer : Bytes → Bytes) (n m : ℕ) (s : Bytes)
    → length s ≤ n
    → length s ≤ m
    → read_turns n answer s ≡ read_turns m answer s
unfolding read_frame
read_turns_agree answer zero zero s h g = refl
read_turns_agree answer zero (suc m) [] h g = refl
read_turns_agree answer zero (suc m) (b ∷ s) h g = absurd (omega (arith, h))
read_turns_agree answer (suc n) zero [] h g = refl
read_turns_agree answer (suc n) zero (b ∷ s) h g = absurd (omega (arith, g))
read_turns_agree answer (suc n) (suc m) [] h g = refl
read_turns_agree answer (suc n) (suc m) (b ∷ s) h g =
    turn-agree answer (length s) (read_turns n answer) (read_turns m answer) (read_frame (b ∷ s))
      (λ rest le. read_turns_agree answer n m rest (omega (arith, le, h)) (omega (arith, le, g)))
      (read_frame-LeavesFrame b s)

-- A turn of ClientReadLoop for each byte that the client sends is enough: with more turns allowed
-- the loop writes the same bytes.
pub client_read_loop_ends :
    (handle_record_command : Bytes → Bytes) (s : Bytes) (fuel : ℕ)
    → length s ≤ fuel
    → read_turns fuel handle_record_command s ≡ client_read_loop handle_record_command s
unfolding client_read_loop
client_read_loop_ends handle_record_command s fuel h =
    read_turns_agree handle_record_command fuel (length s) s h (omega arith)

read_frame-shrinks : (s : Bytes) → LeavesFrame (length s) (read_frame s)
unfolding read_frame
read_frame-shrinks [] = tt
read_frame-shrinks (b ∷ s) =
    LeavesFrame-weaken (length s) (suc (length s)) (read_frame (b ∷ s)) (omega arith)
      (read_frame-LeavesFrame b s)

-- The loop is its first turn and then the loop on what is left.
pub client_read_loop-turn :
    (answer : Bytes → Bytes) (s : Bytes)
    → client_read_loop answer s ≡ turn answer (client_read_loop answer) (read_frame s)
client_read_loop-turn answer s =
    sym (client_read_loop_ends answer s (suc (length s)) (omega arith))
    ∙ turn-agree answer (length s) (read_turns (length s) answer) (client_read_loop answer)
        (read_frame s) (λ rest le. client_read_loop_ends answer rest (length s) le)
        (read_frame-shrinks s)
