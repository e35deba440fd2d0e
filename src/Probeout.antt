-- ===== src/Probeout.antt =====
-- internal/lab/docker/probeout/probeout.go: the line format that the probe prints and the harness
-- reads back. Child modules prove the round trips, the sanitizer and the search.
pub mod Sanitized
pub mod RoundTrip
pub mod Search
use systems_trinkets.Common.{
  ℕ, ◌≡◌, refl, Bool, true, false, not, ◌&&◌, ◌||◌, Option, none, some, List, [], ◌∷◌, ◌++◌, map,
  Bytes, codes, bytes_eq, is_empty, cut_prefix, cut_suffix, cut_on, split, trim_suffix, gather, leb,
  ltb, ◌==◌, if◌then◌else◌, ◌>>=◌,
}

-- Why a line did not parse.
pub data ParseError : Type 0 where
  empty_line no_separator invalid_name ok_without_detail control_in_detail bad_status : ParseError

pub record Line : Type 0 where
  pub name : Bytes
  pub ok : Bool
  pub detail : Bytes
  pub raw : Bytes
  pub err : Option ParseError

-- `Line{}`
abbrev pub zero_line : Line
zero_line = record { name = []; ok = false; detail = []; raw = []; err = none }

abbrev pub is_control : ℕ → Bool
is_control c = ltb c 0x20 || c == 0x7f

unfoldable pub valid_detail : Bytes → Bool
valid_detail [] = true
valid_detail (c ∷ s) = if is_control c then false else valid_detail s

-- The loop of `Sanitize` over the bytes.
blank_controls : Bytes → Bytes
blank_controls [] = []
blank_controls (c ∷ s) = (if is_control c then b' ' else c) ∷ blank_controls s

pub sanitize : Bytes → Bytes
sanitize s = if valid_detail s then s else blank_controls s

abbrev pub is_alnum : ℕ → Bool
is_alnum c = (leb b'a' c && leb c b'z') || (leb b'0' c && leb c b'9')

-- The loop of `ValidName` behind the first byte, where '.', '_' and '-' are allowed too.
unfoldable pub valid_name_tail : Bytes → Bool
valid_name_tail [] = true
valid_name_tail (c ∷ s) =
    if is_alnum c
    then valid_name_tail s
    else (if c == b'.' || c == b'_' || c == b'-' then valid_name_tail s else false)

unfoldable pub valid_name : Bytes → Bool
unfolding valid_name_tail
valid_name [] = false
valid_name (c ∷ s) = if is_alnum c then valid_name_tail s else false

-- `OK`
unfoldable pub ok_line : Bytes → Bytes → Line
ok_line name detail = record zero_line { name = name; ok = true; detail = sanitize detail }

-- `Denied`; the argument is the error's text.
unfoldable pub denied_line : Bytes → Bytes → Line
denied_line name error_text = record zero_line { name = name; detail = sanitize error_text }

abbrev pub malformed : Line → Bool
malformed l = elim l.err [ none ↦ false | some e ↦ true ]

abbrev ok_text : Bytes
ok_text = codes "OK"

abbrev denied_open : Bytes
denied_open = codes "DENIED ("

abbrev separator : Bytes
separator = codes ": "

-- `Line.String`
unfoldable pub to_text : Line → Bytes
to_text l =
    if malformed l
    then l.raw
    else if not l.ok
    then l.name ++ (separator ++ (denied_open ++ (l.detail ++ codes ")")))
    else if is_empty l.detail
    then l.name ++ (separator ++ ok_text)
    else l.name ++ (separator ++ (codes "OK " ++ l.detail))

-- `bad` in `parseLine`
abbrev bad : Bytes → ParseError → Line
bad raw e = record zero_line { raw = raw; err = some e }

-- the case `strings.HasPrefix(rest, "OK ")`, on what follows that prefix
unfoldable pub parse_ok : Bytes → Bytes → Bytes → Line
parse_ok raw name d =
    if is_empty d
    then bad raw ok_without_detail
    else if not (valid_detail d)
    then bad raw control_in_detail
    else record zero_line { name = name; ok = true; detail = d }

-- the text between "DENIED (" and the last ")"
unfoldable pub denied_detail : Bytes → Option Bytes
denied_detail rest = cut_suffix (codes ")") rest >>= λ init. cut_prefix denied_open init

unfoldable pub parse_denied : Bytes → Bytes → Option Bytes → Line
parse_denied raw name none = bad raw bad_status
parse_denied raw name (some d) =
    if not (valid_detail d)
    then bad raw control_in_detail
    else record zero_line { name = name; detail = d }

-- the switch on the text behind the name
unfoldable pub parse_status : Bytes → Bytes → Bytes → Line
unfolding parse_ok parse_denied denied_detail
parse_status raw name rest =
    if bytes_eq rest ok_text
    then record zero_line { name = name; ok = true }
    else elim (cut_prefix (codes "OK ") rest) [
      | some d ↦ parse_ok raw name d
      | none ↦ parse_denied raw name (denied_detail rest)
    ]

unfoldable pub parse_line : Bytes → Line
unfolding parse_status
parse_line raw = if is_empty raw then bad raw empty_line else elim (cut_on separator raw) [
  | none ↦ bad raw no_separator
  | some (name, rest) ↦ if valid_name name then parse_status raw name rest else bad raw invalid_name
]

abbrev newline : ℕ
newline = b'\n'

unfoldable pub parse : Bytes → List Line
parse s = if is_empty s then [] else map parse_line (split newline (trim_suffix (newline ∷ []) s))

unfoldable pub format : List Line → Bytes
format lines = gather (λ l. to_text l ++ newline ∷ []) lines

-- `Find`; `none` is the result with `false`.
unfoldable pub find : List Line → Bytes → Option Line
find [] name = none
find (l ∷ lines) name =
    if not (malformed l) && bytes_eq l.name name then some l else find lines name

-- `Malformed`, the function on a list of lines
unfoldable pub malformed_lines : List Line → List Line
malformed_lines [] = []
malformed_lines (l ∷ lines) =
    if malformed l then l ∷ malformed_lines lines else malformed_lines lines
