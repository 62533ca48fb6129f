-- ===== src/Prelude/Maps.antt =====
-- Dictionaries as association lists, over a key type with a decided equality: the sources'
-- unordered_map and map, without their iteration order. Keys are kept unique by `store`.
use camera_subsystem.Prelude.Lists.{length}
use camera_subsystem.Prelude.Tests.{◌==◌, ==_iff, if◌then◌else◌, Bool-cases}
use Prim.Native.Nat.{ℕ, suc, ◌+◌, ◌≤◌}
use mathlib.Core.Path.{◌≡◌, refl, subst}
use mathlib.Core.Logic.{◌↔◌, inl, inr}
use mathlib.Core.Bool.{Bool, true}
use mathlib.Core.Option.{Option, none, some}
use mathlib.Core.List.{List, [], ◌∷◌}
use native.Mathlib.Omega.{arith}

pub record Eq {ℓ} (A : Type ℓ) : Type ℓ where
  pub beq : A → A → Bool
  pub beq_iff : (x y : A) → (beq x y ≡ true) ↔ (x ≡ y)

infix 50 ◌=?◌
abbrev pub ◌=?◌ {ℓ} : {A : Type ℓ} ⦃e : Eq A⦄ → A → A → Bool
◌=?◌ ⦃e⦄ = e.beq

instance abbrev pub nat_eq : Eq ℕ
nat_eq = record { beq = ◌==◌; beq_iff = ==_iff }

-- 1 for a value that is there and passes a test.
abbrev pub weight {κ} : {V : Type κ} → (V → Bool) → Option V → ℕ
weight p none = 0
weight p (some v) = if p v then 1 else 0

module _ {ℓ κ} {K : Type ℓ} {V : Type κ} ⦃e : Eq K⦄ where
  abbrev pub find : K → List (K × V) → Option V
  find k [] = none
  find k ((j, v) ∷ m) = if j =? k then some v else find k m

  -- Assignment through `operator[]`, or an insertion of a key that is new.
  abbrev pub store : K → V → List (K × V) → List (K × V)
  store k v [] = (k, v) ∷ []
  store k v ((j, w) ∷ m) = if j =? k then (k, v) ∷ m else (j, w) ∷ store k v m

  abbrev pub erase : K → List (K × V) → List (K × V)
  erase k [] = []
  erase k ((j, w) ∷ m) = if j =? k then erase k m else (j, w) ∷ erase k m

  pub find-store :
      (k j : K) (v : V) (m : List (K × V))
      → find j (store k v m) ≡ (if k =? j then some v else find j m)
  find-store k j v [] = refl
  find-store k j v ((i, w) ∷ m) =
      ground (arith, e.beq_iff k j, e.beq_iff i k, e.beq_iff i j, find-store k j v m)

  pub find-erase :
      (k j : K) (m : List (K × V)) → find j (erase k m) ≡ (if k =? j then none else find j m)
  find-erase k j [] = ground arith
  find-erase k j ((i, w) ∷ m) =
      ground (arith, e.beq_iff k j, e.beq_iff i k, e.beq_iff i j, find-erase k j m)

  -- Each key stands once.
  abbrev pub IsUnique : List (K × V) → Type κ
  IsUnique [] = Unit
  IsUnique ((k, v) ∷ m) = (find k m ≡ none) × IsUnique m

  pub store-IsUnique : (k : K) (v : V) (m : List (K × V)) → IsUnique m → IsUnique (store k v m)
  store-IsUnique k v [] u = (refl, tt)
  store-IsUnique k v ((i, w) ∷ m) u =
      ground (arith, e.beq_iff i k, e.beq_iff k i, find-store k i v m, store-IsUnique k v m u.1)

  pub erase-IsUnique : (k : K) (m : List (K × V)) → IsUnique m → IsUnique (erase k m)
  erase-IsUnique k [] u = tt
  erase-IsUnique k ((i, w) ∷ m) u = ground (arith, find-erase k i m, erase-IsUnique k m u.1)

  pub erase_absent : (k : K) (m : List (K × V)) → find k m ≡ none → erase k m ≡ m
  erase_absent k [] h = refl
  erase_absent k ((i, w) ∷ m) h = ground (arith, erase_absent k m)

  -- A tally over the values, when a key gets a value or loses it.
  abbrev pub among : (V → Bool) → List (K × V) → ℕ
  among p [] = 0
  among p ((k, v) ∷ m) = (if p v then 1 else 0) + among p m

  pub among-store :
      (p : V → Bool) (k : K) (v : V) (m : List (K × V))
      → among p (store k v m) + weight p (find k m) ≡ among p m + (if p v then 1 else 0)
  among-store p k v [] = omega arith
  among-store p k v ((i, w) ∷ m) = ground (arith, among-store p k v m)

  pub among-erase :
      (p : V → Bool) (k : K) (m : List (K × V))
      → IsUnique m
      → among p (erase k m) + weight p (find k m) ≡ among p m
  among-erase p k [] u = omega arith
  among-erase p k ((i, w) ∷ m) u =
      ground (arith, e.beq_iff i k, erase_absent k m, among-erase p k m u.1)

  pub among-le-length : (p : V → Bool) (m : List (K × V)) → among p m ≤ length m
  among-le-length p [] = omega arith
  among-le-length p ((k, v) ∷ m) = ground (arith, among-le-length p m)

  pub length-store-le : (k : K) (v : V) (m : List (K × V)) → length (store k v m) ≤ suc (length m)
  length-store-le k v [] = omega arith
  length-store-le k v ((i, w) ∷ m) = ground (arith, length-store-le k v m)

  pub length-erase-le : (k : K) (m : List (K × V)) → length (erase k m) ≤ length m
  length-erase-le k [] = omega arith
  length-erase-le k ((i, w) ∷ m) = ground (arith, length-erase-le k m)

  pub length-store_new :
      (k : K) (v : V) (m : List (K × V)) → find k m ≡ none → length (store k v m) ≡ suc (length m)
  length-store_new k v [] h = refl
  length-store_new k v ((i, w) ∷ m) h = ground (arith, length-store_new k v m)

  pub length-store_old :
      (k : K) (v w : V) (m : List (K × V)) → find k m ≡ some w → length (store k v m) ≡ length m
  length-store_old k v w [] h = cc
  length-store_old k v w ((i, x) ∷ m) h = ground (arith, length-store_old k v w m)

  pub length-erase_old :
      (k : K) (w : V) (m : List (K × V))
      → IsUnique m
      → find k m ≡ some w
      → suc (length (erase k m)) ≡ length m
  length-erase_old k w [] u h = cc
  length-erase_old k w ((i, x) ∷ m) u h =
      ground (arith, e.beq_iff i k, erase_absent k m, length-erase_old k w m u.1)

  pub weight-le-among : (p : V → Bool) (k : K) (m : List (K × V)) → weight p (find k m) ≤ among p m
  weight-le-among p k [] = omega arith
  weight-le-among p k ((i, w) ∷ m) = ground (arith, weight-le-among p k m)

  -- A second write under the same key, and a removal after a write.
  pub find-store-store :
      (k j : K) (v w : V) (m : List (K × V))
      → find j (store k w (store k v m)) ≡ (if k =? j then some w else find j m)
  find-store-store k j v w m = ground (arith, find-store k j w (store k v m), find-store k j v m)

  pub find-erase-store :
      (k j : K) (v : V) (m : List (K × V))
      → find j (erase k (store k v m)) ≡ (if k =? j then none else find j m)
  find-erase-store k j v m = ground (arith, find-erase k j (store k v m), find-store k j v m)

some_inj {κ} : {V : Type κ} (x y : V) → some x ≡ some y → x ≡ y
some_inj x y h = cc

-- A property of every entry.
module _ {ℓ κ} {K : Type ℓ} {V : Type κ} ⦃e : Eq K⦄ (P : K → V → Type 0) where
  abbrev pub Every : List (K × V) → Type 0
  Every [] = Unit
  Every ((k, v) ∷ m) = P k v × Every m

  pub Every-find : (k : K) (v : V) (m : List (K × V)) → Every m → find k m ≡ some v → P k v
  Every-find k v [] h q = cc
  Every-find k v ((i, w) ∷ m) h q = elim (Bool-cases (i =? k)) [
    | inl hit ↦
        subst (λ j. P j v) ((e.beq_iff i k).0 hit) (subst (P i) (some_inj w v (ground arith)) h.0)
    | inr miss ↦ Every-find k v m h.1 (ground arith)
  ]

  pub Every-store : (k : K) (v : V) (m : List (K × V)) → Every m → P k v → Every (store k v m)
  Every-store k v [] h p = (p, tt)
  Every-store k v ((i, w) ∷ m) h p = elim (Bool-cases (i =? k)) [
    | inl hit ↦ rw hit (p, h.1)
    | inr miss ↦ rw miss (h.0, Every-store k v m h.1 p)
  ]

  pub Every-erase : (k : K) (m : List (K × V)) → Every m → Every (erase k m)
  Every-erase k [] h = tt
  Every-erase k ((i, w) ∷ m) h = elim (Bool-cases (i =? k)) [
    | inl hit ↦ rw hit (Every-erase k m h.1)
    | inr miss ↦ rw miss (h.0, Every-erase k m h.1)
  ]
