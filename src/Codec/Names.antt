-- ===== src/Codec/Names.antt =====
-- The file name that Open of extensions/codec_server/src/recording_file_writer.cpp finds when the
-- first one is taken.
use camera_subsystem.Codec.Writer.{
  output_dir_not_writable, file_create_failed, invalid_stream_id, file_not_open, recording_io_error,
  create, close, Writer, WriterResult, ok, Disk, validate_stream_id, ensure_output_dir, free_from,
  int_max, candidate, free_path, base_name, generate_file_name, path_in, open_at, unless_ok,
  open_file,
}
use mathlib.Core.List.{append_cancel_left, append_cancel_right}
use camera_subsystem.Prelude.{
  ℕ, zero, suc, ◌+◌, ◌≢◌, ltb, ◌≤◌, ◌<◌, ◌≡◌, refl, sym, ap, subst, ◌∙◌, inl, inr, Bool, true,
  false, ◌||◌, Option, none, some, List, [], ◌∷◌, ◌++◌, arith, leb, if◌then◌else◌, Bool-cases,
  length, Bytes, codes, bytes_same_iff, bytes_eq, nat_eq, ◌=?◌,
}

abbrev pub is_member : Bytes → List Bytes → Bool
is_member x [] = false
is_member x (y ∷ ys) = (y =? x) || is_member x ys

abbrev without : Bytes → List Bytes → List Bytes
without x [] = []
without x (y ∷ ys) = if y =? x then ys else y ∷ without x ys

length-without :
    (x : Bytes) (ys : List Bytes) → is_member x ys ≡ true → suc (length (without x ys)) ≡ length ys
length-without x [] h = cc
length-without x (y ∷ ys) h = elim (Bool-cases (y =? x)) [
  | inl hit ↦ ground arith
  | inr miss ↦ ground (arith, length-without x ys (ground arith))
]

is_member-without :
    (x z : Bytes) (ys : List Bytes)
    → is_member z ys ≡ true
    → (x =? z) ≡ false
    → is_member z (without x ys) ≡ true
is_member-without x z [] h e = h
is_member-without x z (y ∷ ys) h e = elim (Bool-cases (y =? x)) [
  | inl hit ↦
      rw hit (ground (arith, h, subst (λ w. (w =? z) ≡ false) (sym ((bytes_same_iff y x).0 hit)) e))
  | inr miss ↦ elim (Bool-cases (y =? z)) [
    | inl found ↦ ground arith
    | inr other ↦ ground (arith, is_member-without x z ys (ground arith) e)
  ]
]

-- Different numbers of an `int` have different texts.
abbrev pub IsInjective : (ℕ → Bytes) → Type 0
IsInjective f = (m n : ℕ) → m ≤ int_max → n ≤ int_max → f m ≡ f n → m ≡ n

distinct : (f : ℕ → Bytes) (m n : ℕ) → IsInjective f → m < n → n ≤ int_max → (f m =? f n) ≡ false
distinct f m n inj lt top = elim (Bool-cases (f m =? f n)) [
  | inr e ↦ e
  | inl e ↦
      let same = inj m n (omega (arith, lt, top)) top ((bytes_same_iff (f m) (f n)).0 e) in
      absurd (omega (arith, lt, same))
]

abbrev pub is_found {ℓ} : {A : Type ℓ} → Option A → Bool
is_found none = false
is_found (some a) = true

-- The names from `n` on that are taken stand in a list of files; with more rounds than files, and
-- room for the counter, one of the names is free.
free_from-found :
    (throws exists : Bytes → Bool) (names : ℕ → Bytes) (rounds n : ℕ) (files : List Bytes)
    → IsInjective names
    → ((p : Bytes) → throws p ≡ false)
    → ((m : ℕ) → n ≤ m → m ≤ int_max → exists (names m) ≡ true → is_member (names m) files ≡ true)
    → length files < rounds
    → n + length files ≤ int_max
    → is_found (free_from throws exists names rounds n) ≡ true
free_from-found throws exists names zero n files inj calm h lt top = absurd (omega (arith, lt))
free_from-found throws exists names (suc rounds) n files inj calm h lt top =
    let in_range : (ltb int_max n || throws (names n)) ≡ false =
      ground (arith, top, calm (names n)) in
    elim (Bool-cases (exists (names n))) [
      | inr free ↦ rw (in_range, free) refl
      | inl taken ↦
          let there = h n (omega arith) (omega (arith, top)) taken in
          let fewer = length-without (names n) files there in
          rw (in_range, taken)
            (free_from-found throws exists names rounds (suc n) (without (names n) files) inj calm
              (λ m le small e.
                is_member-without (names n) (names m) files (h m (omega (arith, le)) small e)
                  (distinct names n m inj (omega (arith, le)) small))
              (omega (arith, lt, fewer)) (omega (arith, top, fewer)))
    ]

some_inj {ℓ} : {A : Type ℓ} (x y : A) → some x ≡ some y → x ≡ y
some_inj x y h = cc

no_path : (path : Bytes) (o : Option Bytes) → o ≡ none → o ≢ some path
no_path path o h e = cc

free_from-free :
    (throws exists : Bytes → Bool) (names : ℕ → Bytes) (rounds n : ℕ) (path : Bytes)
    → free_from throws exists names rounds n ≡ some path
    → exists path ≡ false
free_from-free throws exists names zero n path h = cc
free_from-free throws exists names (suc rounds) n path h =
    elim (Bool-cases (ltb int_max n || throws (names n))) [
      | inl over ↦
          absurd
            (no_path path (free_from throws exists names (suc rounds) n) (ground (arith, over)) h)
      | inr fits ↦ elim (Bool-cases (exists (names n))) [
        | inr free ↦
            subst (λ p. exists p ≡ false) (some_inj (names n) path (ground (arith, h, fits, free)))
              free
        | inl taken ↦
            free_from-free throws exists names rounds (suc n) path (ground (arith, h, fits, taken))
      ]
    ]

candidate-IsInjective :
    (d : Disk) (dir base : Bytes) → IsInjective d.to_string → IsInjective (candidate d dir base)
candidate-IsInjective d dir base inj m n hm hn e =
    let front : Bytes = base ++ codes "_" in
    let stem : ℕ → Bytes = λ k. front ++ d.to_string k in
    let named : ℕ → Bytes = λ k. stem k ++ codes ".h264" in
    let e1 = append_cancel_left (dir ++ codes "/") (named m) (named n) e in
    let e2 = append_cancel_right (stem m) (stem n) (codes ".h264") e1 in
    inj m n hm hn (append_cancel_left front (d.to_string m) (d.to_string n) e2)

free_path-found :
    (d : Disk) (rounds : ℕ) (id dir : Bytes) (files : List Bytes)
    → IsInjective d.to_string
    → ((p : Bytes) → d.throws p ≡ false)
    → ((p : Bytes) → d.exists p ≡ true → is_member p files ≡ true)
    → length files < rounds
    → length files + 2 ≤ int_max
    → is_found (free_path d rounds id dir) ≡ true
unfolding free_path
free_path-found d rounds id dir files inj calm h lt top =
    let quiet = calm (path_in dir (generate_file_name id d.timestamp)) in
    elim (Bool-cases (d.exists (path_in dir (generate_file_name id d.timestamp)))) [
      | inr free ↦ rw (quiet, free) refl
      | inl taken ↦
          let base = base_name id d.timestamp in
          rw (quiet, taken)
            (free_from-found d.throws d.exists (candidate d dir base) rounds 2 files
              (candidate-IsInjective d dir base inj) calm
              (λ m le small e. h (candidate d dir base m) e) lt (omega (arith, top)))
    ]

free_path-free :
    (d : Disk) (rounds : ℕ) (id dir path : Bytes)
    → free_path d rounds id dir ≡ some path
    → d.exists path ≡ false
unfolding free_path
free_path-free d rounds id dir path h =
    let first = path_in dir (generate_file_name id d.timestamp) in
    elim (Bool-cases (d.throws first)) [
      | inl bad ↦ absurd (no_path path (free_path d rounds id dir) (rw bad refl) h)
      | inr quiet ↦ elim (Bool-cases (d.exists first)) [
        | inr free ↦
            subst (λ p. d.exists p ≡ false) (some_inj _ path (ground (arith, h, quiet, free))) free
        | inl taken ↦
            free_from-free d.throws d.exists (candidate d dir (base_name id d.timestamp)) rounds 2
              path (ground (arith, h, quiet, taken))
      ]
    ]

is_found-unless_ok :
    (w : Writer) (r : WriterResult) (next : Option (Writer × WriterResult))
    → is_found next ≡ true
    → is_found (unless_ok w r next) ≡ true
is_found-unless_ok w r next h = elim r as (λ r. is_found (unless_ok w r next) ≡ true) [
  | ok ↦ h
  | _ ↦ refl
]

is_found-open_at :
    (w : Writer) (d : Disk) (path : Option Bytes)
    → is_found path ≡ true
    → is_found (open_at w d path) ≡ true
is_found-open_at w d none h = h
is_found-open_at w d (some path) h = refl

-- Open comes to an end, before the `int` of its conflict loop overflows: when at most 2^31 - 3 paths
-- exist, std::to_string gives different texts to different numbers, and asking for a path does not
-- throw, more rounds of the loop than there are paths are enough.
pub open_ends :
    (rounds : ℕ) (w : Writer) (id dir : Bytes) (d : Disk) (files : List Bytes)
    → IsInjective d.to_string
    → ((p : Bytes) → d.throws p ≡ false)
    → ((p : Bytes) → d.exists p ≡ true → is_member p files ≡ true)
    → length files < rounds
    → length files + 2 ≤ int_max
    → is_found (open_file rounds w id dir d) ≡ true
unfolding open_file
open_ends rounds w id dir d files inj calm h lt top =
    is_found-unless_ok _ (validate_stream_id id) _ (
      is_found-unless_ok _ (ensure_output_dir d dir) _
        (is_found-open_at _ d _ (free_path-found d rounds id dir files inj calm h lt top)))

unless_ok-done :
    (w w' : Writer) (r : WriterResult) (next : Option (Writer × WriterResult))
    → unless_ok w r next ≡ some (w', ok)
    → next ≡ some (w', ok)
unless_ok-done w w' ok next h = h
unless_ok-done w w' output_dir_not_writable next h = absurd (cc)
unless_ok-done w w' file_create_failed next h = absurd (cc)
unless_ok-done w w' invalid_stream_id next h = absurd (cc)
unless_ok-done w w' file_not_open next h = absurd (cc)
unless_ok-done w w' recording_io_error next h = absurd (cc)

create-done :
    (w w' : Writer) (path : Bytes) (o : Option ℕ)
    → create w path o ≡ (w', ok)
    → (w'.file_path ≡ path) × (w'.is_open ≡ true)
create-done w w' path none h = absurd (cc)
create-done w w' path (some n) h = (sym (ap (λ r. r.0.file_path) h), sym (ap (λ r. r.0.is_open) h))

file_fails : file_create_failed ≡ ok → ⊥
file_fails h = cc

open_at-done :
    (w w' : Writer) (d : Disk) (o : Option Bytes)
    → open_at w d o ≡ some (w', ok)
    → (path : Bytes) × (o ≡ some path) × (w'.file_path ≡ path) × (w'.is_open ≡ true)
open_at-done w w' d none h = absurd (cc)
open_at-done w w' d (some path) h =
    let outcome : Bool → Writer × WriterResult =
      λ b. if b then (w, file_create_failed) else create w path d.opened in
    let result = some_inj (outcome (leb d.path_max (length path))) (w', ok) h in
    elim (Bool-cases (leb d.path_max (length path))) [
      | inl long ↦ absurd (file_fails (ap (λ r. r.1) (sym (ap outcome long) ∙ result)))
      | inr fits ↦
          let (named, opens) = create-done w w' path d.opened (sym (ap outcome fits) ∙ result) in
          (path, refl, named, opens)
    ]

-- An Open that says ok leaves the writer open on a path that did not exist, whatever was open
-- before.
pub open_never_overwrites :
    (rounds : ℕ) (w w' : Writer) (id dir : Bytes) (d : Disk)
    → open_file rounds w id dir d ≡ some (w', ok)
    → (d.exists w'.file_path ≡ false) × (w'.is_open ≡ true)
unfolding open_file
open_never_overwrites rounds w w' id dir d h =
    let w0 = if w.is_open then (close w d.flushed d.synced).0 else w in
    let at =
      unless_ok-done w0 w' (ensure_output_dir d dir) _
        (unless_ok-done w0 w' (validate_stream_id id) _ h) in
    let (path, found, named, opens) = open_at-done w0 w' d (free_path d rounds id dir) at in
    (ap d.exists named ∙ free_path-free d rounds id dir path found, opens)
