-- ===== src/Probe/Arguments.antt =====
-- The arguments of the probe's commands: `parseFlags` of main.go for a flag set without flags, and
-- `parseMode` of checks.go.
use systems_trinkets.Common.{
  ℕ, ◌+◌, ◌-◌, ◌*◌, ◌/◌, ◌%◌, not, ◌&&◌, ◌||◌, Option, none, some, List, [], ◌∷◌, ltb, leb, ◌==◌,
  if◌then◌else◌, Result, ok, err, Bytes, codes, bytes_eq, is_empty, has_prefix, cut, length,
}
use systems_trinkets.Probe.{Usage, flag_undefined, flag_syntax, flag_help, argument_count, bad_mode}

-- `flag.FlagSet.Parse` of a set that defines no flag: it stops at the first argument that is none, drops
-- a first `--`, and fails at any other argument that starts with a hyphen. `h` and `help` ask for help.
abbrev flag_named : Bytes → Bytes → Result Usage (List Bytes)
flag_named whole name =
    if is_empty name || (has_prefix (codes "-") name || has_prefix (codes "=") name)
    then err (flag_syntax whole)
    else let (key, value) = cut b'=' name in
      if bytes_eq key (codes "help") || bytes_eq key (codes "h")
      then err flag_help
      else err (flag_undefined key)

unfoldable pub parse_no_flags : List Bytes → Result Usage (List Bytes)
parse_no_flags [] = ok []
parse_no_flags ([] ∷ rest) = ok ([] ∷ rest)
parse_no_flags ((c ∷ []) ∷ rest) = ok ((c ∷ []) ∷ rest)
parse_no_flags ((c ∷ d ∷ a) ∷ rest) =
    if not (c == b'-')
    then ok ((c ∷ d ∷ a) ∷ rest)
    else if not (d == b'-')
    then flag_named (c ∷ d ∷ a) (d ∷ a)
    else if is_empty a
    then ok rest
    else flag_named (c ∷ d ∷ a) a

unfoldable pub counted : ℕ → ℕ → List Bytes → Result Usage (List Bytes)
counted least most rest =
    if ltb (length rest) least || ltb most (length rest)
    then err (argument_count (length rest) least most)
    else ok rest

-- `parseFlags` with such a set
unfoldable pub parse_flags : ℕ → ℕ → List Bytes → Result Usage (List Bytes)
unfolding parse_no_flags counted
parse_flags least most args = elim (parse_no_flags args) [
  | err e ↦ err e
  | ok rest ↦ counted least most rest
]

-- The number that octal digits spell behind `n`; `none` at any other byte. The code reads 32 bits; what
-- exceeds them exceeds 07777 too.
unfoldable pub octal_value : Bytes → ℕ → Option ℕ
octal_value [] n = some n
octal_value (c ∷ s) n =
    let rest = octal_value s (n * 8 + (c - b'0')) in if leb b'0' c && leb c b'7' then rest else none

-- `parseMode`
unfoldable pub parse_mode : Bytes → Result Usage ℕ
unfolding octal_value
parse_mode s = elim (if is_empty s then none else octal_value s 0) [
  | none ↦ err (bad_mode s)
  | some m ↦ if ltb 0o7777 m then err (bad_mode s) else ok m
]

-- `%04o` of a number up to 07777
unfoldable pub octal4 : ℕ → Bytes
octal4 n = (b'0' + n / 512) ∷ (b'0' + n / 64 % 8) ∷ (b'0' + n / 8 % 8) ∷ (b'0' + n % 8) ∷ []
