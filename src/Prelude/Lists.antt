-- ===== src/Prelude/Lists.antt =====
-- Lists measured, indexed and counted by native numbers.
use Prim.Native.Nat.{ℕ, zero, suc, ◌+◌, ◌<◌, ◌≤◌}
use mathlib.Core.Path.{◌≡◌, refl, ap}
use mathlib.Core.Logic.{◌⊎◌, inl, inr}
use mathlib.Core.Bool.{Bool, true, false}
use mathlib.Core.List.{List, [], ◌∷◌, ◌++◌}
use mathlib.Core.Option.{Option, none, some}
use native.Mathlib.Omega.{arith}
use camera_subsystem.Prelude.Tests.{◌==◌, ltb, if◌then◌else◌}

module _ {ℓ} {A : Type ℓ} where
  abbrev pub length : List A → ℕ
  length [] = 0
  length (x ∷ xs) = suc (length xs)

  abbrev pub get_elem? : List A → ℕ → Option A
  get_elem? [] i = none
  get_elem? (x ∷ xs) zero = some x
  get_elem? (x ∷ xs) (suc i) = get_elem? xs i

  -- A write out of bounds changes nothing.
  abbrev pub set : List A → ℕ → A → List A
  set [] i v = []
  set (x ∷ xs) zero v = v ∷ xs
  set (x ∷ xs) (suc i) v = x ∷ set xs i v

  -- How many entries pass a test.
  abbrev pub tally : (A → Bool) → List A → ℕ
  tally p [] = 0
  tally p (x ∷ xs) = (if p x then 1 else 0) + tally p xs

  abbrev pub keep : (A → Bool) → List A → List A
  keep p [] = []
  keep p (x ∷ xs) = if p x then x ∷ keep p xs else keep p xs

module _ {ℓ} {A : Type ℓ} where
  pub length-append : (xs ys : List A) → length (xs ++ ys) ≡ length xs + length ys
  length-append [] ys = omega arith
  length-append (x ∷ xs) ys = omega (arith, length-append xs ys)

  pub length-set : (xs : List A) (i : ℕ) (v : A) → length (set xs i v) ≡ length xs
  length-set [] i v = refl
  length-set (x ∷ xs) zero v = refl
  length-set (x ∷ xs) (suc i) v = ap suc (length-set xs i v)

  -- A read after a write, at any two places.
  pub get_elem?-set :
      (xs : List A) (i j : ℕ) (v : A)
      → get_elem? (set xs i v) j
        ≡ (if i == j then (if ltb i (length xs) then some v else none) else get_elem? xs j)
  get_elem?-set [] zero j v = ground arith
  get_elem?-set [] (suc i) j v = ground arith
  get_elem?-set (x ∷ xs) zero zero v = ground arith
  get_elem?-set (x ∷ xs) zero (suc j) v = ground arith
  get_elem?-set (x ∷ xs) (suc i) zero v = ground arith
  get_elem?-set (x ∷ xs) (suc i) (suc j) v = ground (arith, get_elem?-set xs i j v)

  pub get_elem?-lt : (xs : List A) (i : ℕ) (x : A) → get_elem? xs i ≡ some x → i < length xs
  get_elem?-lt [] i x h = cc
  get_elem?-lt (y ∷ xs) zero x h = omega arith
  get_elem?-lt (y ∷ xs) (suc i) x h = omega (arith, get_elem?-lt xs i x h)

  pub tally-append : (p : A → Bool) (xs ys : List A) → tally p (xs ++ ys) ≡ tally p xs + tally p ys
  tally-append p [] ys = omega arith
  tally-append p (x ∷ xs) ys = omega (arith, tally-append p xs ys)

  -- A write changes a tally by what leaves and what comes.
  pub tally-set :
      (p : A → Bool) (xs : List A) (i : ℕ) (old new : A)
      → get_elem? xs i ≡ some old
      → tally p (set xs i new) + (if p old then 1 else 0) ≡ tally p xs + (if p new then 1 else 0)
  tally-set p [] i old new h = cc
  tally-set p (x ∷ xs) zero old new h = ground arith
  tally-set p (x ∷ xs) (suc i) old new h = ground (arith, tally-set p xs i old new h)

  pub tally-le-length : (p : A → Bool) (xs : List A) → tally p xs ≤ length xs
  tally-le-length p [] = omega arith
  tally-le-length p (x ∷ xs) = ground (arith, tally-le-length p xs)

-- How often a number stands in a list.
abbrev pub count : ℕ → List ℕ → ℕ
count n = tally (λ y. y == n)

pub count-append :
    (n : ℕ) (front back : List ℕ) → count n (front ++ back) ≡ count n front + count n back
count-append n = tally-append (λ y. y == n)

module _ {ℓ} {A : Type ℓ} where
  pub tally_pos :
      (p : A → Bool) (xs : List A) (k : ℕ) (x : A)
      → get_elem? xs k ≡ some x
      → p x ≡ true
      → 0 < tally p xs
  tally_pos p [] k x h e = cc
  tally_pos p (y ∷ xs) zero x h e = ground arith
  tally_pos p (y ∷ xs) (suc k) x h e = ground (arith, tally_pos p xs k x h e)

  -- An entry of a list with one more at the end is an old one or the new one.
  pub get_elem?-snoc :
      (xs : List A) (y : A) (k : ℕ) (x : A)
      → get_elem? (xs ++ y ∷ []) k ≡ some x
      → (get_elem? xs k ≡ some x) ⊎ (y ≡ x)
  get_elem?-snoc [] y zero x h = inr (cc)
  get_elem?-snoc [] y (suc k) x h = cc
  get_elem?-snoc (z ∷ xs) y zero x h = inl h
  get_elem?-snoc (z ∷ xs) y (suc k) x h = get_elem?-snoc xs y k x h

  -- Two different places that pass a test count twice.
  pub tally_two :
      (p : A → Bool) (xs : List A) (j k : ℕ) (x y : A)
      → j < k
      → get_elem? xs j ≡ some x
      → get_elem? xs k ≡ some y
      → p x ≡ true
      → p y ≡ true
      → 2 ≤ tally p xs
  tally_two p [] j k x y lt hx hy px py = cc
  tally_two p (z ∷ xs) j zero x y lt hx hy px py = absurd (omega arith)
  tally_two p (z ∷ xs) zero (suc k) x y lt hx hy px py = ground (arith, tally_pos p xs k y hy py)
  tally_two p (z ∷ xs) (suc j) (suc k) x y lt hx hy px py =
      ground (arith, tally_two p xs j k x y (omega arith) hx hy px py)

  pub tally-eq-zero :
      (p : A → Bool) (xs : List A)
      → ((k : ℕ) (x : A) → get_elem? xs k ≡ some x → p x ≡ false)
      → tally p xs ≡ 0
  tally-eq-zero p [] h = refl
  tally-eq-zero p (x ∷ xs) h =
      ground (arith, h 0 x refl, tally-eq-zero p xs (λ k y e. h (suc k) y e))
