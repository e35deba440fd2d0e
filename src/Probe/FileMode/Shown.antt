-- ===== src/Probe/FileMode/Shown.antt =====
-- Reading back what `fileMode` shows and what `chmod` is given.
use systems_trinkets.Common.{
  ℕ, zero, suc, ◌+◌, ◌-◌, ◌*◌, ◌/◌, ◌%◌, ◌≤◌, ◌<◌, ◌≡◌, refl, ◌≢◌, inl, inr, Bool, true, false,
  ◌&&◌, ◌||◌, Option, none, some, [], ◌∷◌, arith, leb, ◌==◌, if◌then◌else◌, ==_iff, leb→le,
  Bool-cases, Option-cases, and_true, ◌>>=◌, Result, ok, err, Bytes, All,
}
use systems_trinkets.Probe.{Usage}
use systems_trinkets.Probe.Arguments.{parse_mode, octal4, octal_value}
use systems_trinkets.Probe.FileMode.{type_char, permission_text, file_mode}

-- One letter of ls: set, or a hyphen.
read_letter : ℕ → ℕ → Option ℕ
read_letter letter c = if c == letter then some 1 else if c == b'-' then some 0 else none

-- An execute letter: its bit, and the special bit shown in its place by `on`, lower case where the
-- execute bit is set too.
read_execute : ℕ → ℕ → Option (ℕ × ℕ)
read_execute on c =
    if c == b'x'
    then some (1, 0)
    else if c == b'-'
    then some (0, 0)
    else if c == on
    then some (1, 1)
    else if c + 32 == on
    then some (0, 1)
    else none

-- Three letters: the permission bits, and the special bit.
read_triple : ℕ → ℕ → ℕ → ℕ → Option (ℕ × ℕ)
read_triple on r w x = read_letter b'r' r >>= λ a.
    read_letter b'w' w >>= λ b. read_execute on x >>= λ e. some (a * 4 + b * 2 + e.0, e.1)

-- The mode bits that the nine letters of ls stand for.
unfoldable pub read_permissions : Bytes → Option ℕ
unfolding read_letter read_execute read_triple
read_permissions (a ∷ b ∷ c ∷ d ∷ e ∷ f ∷ g ∷ h ∷ i ∷ []) = read_triple b's' a b c >>= λ u.
    read_triple b's' d e f >>= λ g'. read_triple b't' g h i >>= λ o.
    some (u.1 * 2048 + g'.1 * 1024 + o.1 * 512 + u.0 * 64 + g'.0 * 8 + o.0)
read_permissions _ = none

-- The file type that the first letter of ls stands for, as the multiple of 2^12 in the mode; a hyphen
-- names none.
unfoldable pub read_type : ℕ → Option ℕ
read_type c =
    if c == b's'
    then some 12
    else if c == b'd'
    then some 4
    else if c == b'l'
    then some 10
    else if c == b'p'
    then some 1
    else if c == b'c'
    then some 2
    else if c == b'b'
    then some 6
    else none

-- The types that have a letter: socket, directory, link, pipe and the two devices.
abbrev pub lettered : ℕ → Bool
lettered t = t == 12 || (t == 4 || (t == 10 || (t == 1 || (t == 2 || t == 6))))

-- The test that `reader` gives back each of 0, …, n - 1.
returns_all : (ℕ → Option ℕ) → ℕ → Bool
returns_all reader zero = true
returns_all reader (suc n) =
    let smaller = returns_all reader n in
    elim (reader n) [ none ↦ false | some m ↦ if m == n then smaller else false ]

returns_all-same :
    (reader : ℕ → Option ℕ) (bound n : ℕ)
    → n < bound
    → returns_all reader bound ≡ true
    → reader n ≡ some n
unfolding returns_all
returns_all-same reader zero n less h = absurd (omega arith)
returns_all-same reader (suc bound) n less h = elim (Option-cases (reader bound)) [
  | inl e ↦ absurd (ground arith)
  | inr (m, e) ↦ ground (arith, returns_all-same reader bound n, ==_iff m bound)
]

permissions_table : returns_all (λ m. read_permissions (permission_text m)) 4096 ≡ true
unfolding returns_all read_permissions permission_text
permissions_table = refl

mode_of : Result Usage ℕ → Option ℕ
mode_of (ok m) = some m
mode_of (err e) = none

modes_table : returns_all (λ m. mode_of (parse_mode (octal4 m))) 4096 ≡ true
unfolding returns_all mode_of parse_mode octal4
modes_table = refl

-- The letters depend on the twelve low bits.
permission_text-low : (mode : ℕ) → permission_text (mode % 4096) ≡ permission_text mode
unfolding permission_text
permission_text-low mode =
    let b0 : mode % 4096 / 1 % 2 ≡ mode / 1 % 2 = omega arith in
    let b1 : mode % 4096 / 2 % 2 ≡ mode / 2 % 2 = omega arith in
    let b2 : mode % 4096 / 4 % 2 ≡ mode / 4 % 2 = omega arith in
    let b3 : mode % 4096 / 8 % 2 ≡ mode / 8 % 2 = omega arith in
    let b4 : mode % 4096 / 16 % 2 ≡ mode / 16 % 2 = omega arith in
    let b5 : mode % 4096 / 32 % 2 ≡ mode / 32 % 2 = omega arith in
    let b6 : mode % 4096 / 64 % 2 ≡ mode / 64 % 2 = omega arith in
    let b7 : mode % 4096 / 128 % 2 ≡ mode / 128 % 2 = omega arith in
    let b8 : mode % 4096 / 256 % 2 ≡ mode / 256 % 2 = omega arith in
    let b9 : mode % 4096 / 512 % 2 ≡ mode / 512 % 2 = omega arith in
    let b10 : mode % 4096 / 1024 % 2 ≡ mode / 1024 % 2 = omega arith in
    let b11 : mode % 4096 / 2048 % 2 ≡ mode / 2048 % 2 = omega arith in
    rw (b0, b1, b2, b3, b4, b5, b6, b7, b8, b9, b10, b11) refl

type_char-read :
    (mode : ℕ)
    → read_type (type_char mode)
      ≡ (if lettered (mode / 4096 % 16) then some (mode / 4096 % 16) else none)
unfolding read_type type_char
type_char-read mode = ground arith

octal_digits_bound :
    (s : Bytes) (n m : ℕ) → octal_value s n ≡ some m → All (λ c. (b'0' ≤ c) × (c ≤ b'7')) s
unfolding octal_value
octal_digits_bound [] n m h = tt
octal_digits_bound (c ∷ s) n m h = elim (Bool-cases (leb b'0' c && leb c b'7')) [
  | inr f ↦ absurd (ground arith)
  | inl t ↦ (
    (leb→le _ _ (and_true _ _ t).0, leb→le _ _ (and_true _ _ t).1),
    octal_digits_bound s (n * 8 + (c - b'0')) m (rw t at h),
  )
]

parse_mode_bound :
    (s : Bytes) (m : ℕ) → parse_mode s ≡ ok m → (m < 4096) × (octal_value s 0 ≡ some m) × (s ≢ [])
unfolding parse_mode
parse_mode_bound [] m h = absurd (cc)
parse_mode_bound (c ∷ s) m h = elim (Option-cases (octal_value (c ∷ s) 0)) [
  | inl e ↦ absurd (ground arith)
  | inr (v, e) ↦ ground arith
]

-- What `fileMode` shows of a mode is read back: nine letters that stand for its twelve low bits, behind
-- a letter that stands for its type where the type has one.
pub file_mode_lem :
    (mode : ℕ)
    → (letter : ℕ) × (rest : Bytes) × (file_mode mode ≡ letter ∷ rest)
      × (read_permissions rest ≡ some (mode % 4096))
      × (read_type letter ≡ (if lettered (mode / 4096 % 16) then some (mode / 4096 % 16) else none))
unfolding file_mode
file_mode_lem mode = (
  type_char mode,
  permission_text mode,
  refl,
  rw (← permission_text-low mode)
      (returns_all-same _ 4096 (mode % 4096) (omega arith) permissions_table),
  type_char-read mode,
)

mode_of-ok : (r : Result Usage ℕ) (m : ℕ) → mode_of r ≡ some m → r ≡ ok m
unfolding mode_of
mode_of-ok (ok n) m h = ground arith
mode_of-ok (err e) m h = absurd (cc)

-- The permission that `stat` prints is one that `chmod` reads back, for each of the 4096; and every text
-- that `parseMode` accepts is of octal digits, at least one, that spell the mode returned, which is at
-- most 07777.
pub parse_mode_lem :
    (m : ℕ)
    → (m < 4096 → parse_mode (octal4 m) ≡ ok m)
      × ((s : Bytes)
          → parse_mode s ≡ ok m
          → (m < 4096)
            × (s ≢ [])
            × All (λ c. (b'0' ≤ c) × (c ≤ b'7')) s
            × (octal_value s 0 ≡ some m))
parse_mode_lem m = (
  λ h. mode_of-ok _ m (returns_all-same _ 4096 m h modes_table),
  λ s h.
      let (small, value, some_digit) = parse_mode_bound s m h in
      (small, some_digit, octal_digits_bound s 0 m value, value),
)
