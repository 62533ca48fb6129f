-- ===== src/Prelude/Strings.antt =====
-- Byte strings: std::string, and the fixed char arrays that the messages carry.
use Prim.Native.Nat.{ℕ, zero, suc}
use Prim.Native.String.{String}
use Prim.Native.Char.{code}
use mathlib.Core.Path.{◌≡◌}
use mathlib.Core.Logic.{◌↔◌}
use mathlib.Core.Bool.{Bool, true, false, ◌&&◌}
use mathlib.Core.List.{List, [], ◌∷◌}
use native.Mathlib.Omega.{arith}
use camera_subsystem.Prelude.Tests.{◌==◌}
use camera_subsystem.Prelude.Maps.{Eq}

abbrev pub Bytes : Type 0
Bytes = List ℕ

-- The bytes of an ASCII literal.
abbrev pub codes : String → Bytes
codes String.[] = []
codes (String.◌∷◌ c s) = code c ∷ codes s

abbrev pub bytes_same : Bytes → Bytes → Bool
bytes_same [] [] = true
bytes_same (x ∷ xs) (y ∷ ys) = x == y && bytes_same xs ys
bytes_same _ _ = false

pub bytes_same_iff : (xs ys : Bytes) → (bytes_same xs ys ≡ true) ↔ (xs ≡ ys)
bytes_same_iff [] [] = ground arith
bytes_same_iff [] (y ∷ ys) = ground arith
bytes_same_iff (x ∷ xs) [] = ground arith
bytes_same_iff (x ∷ xs) (y ∷ ys) = ground (arith, bytes_same_iff xs ys)

instance abbrev pub bytes_eq : Eq Bytes
bytes_eq = record { beq = bytes_same; beq_iff = bytes_same_iff }

abbrev pub is_empty {ℓ} : {A : Type ℓ} → List A → Bool
is_empty [] = true
is_empty (x ∷ xs) = false

-- The string that a char array holds: the bytes before the first NUL.
abbrev pub c_str : Bytes → Bytes
c_str [] = []
c_str (zero ∷ xs) = []
c_str (suc b ∷ xs) = suc b ∷ c_str xs

-- `memset(a, 0, n)` and then `strncpy(a, s, n - 1)` for a string without NUL.
abbrev pub padded : ℕ → Bytes → Bytes
padded zero s = []
padded (suc zero) s = 0 ∷ []
padded (suc (suc n)) [] = 0 ∷ padded (suc n) []
padded (suc (suc n)) (b ∷ s) = b ∷ padded (suc n) s
