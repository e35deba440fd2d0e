-- ===== src/Docker/Names.antt =====
-- The names, labels and numeric identities of internal/lab/docker: the regular expressions of
-- spec.go and image.go as matchers, `ContainerName`, `Labels`, `validID` and its users.
pub mod Laws
use systems_trinkets.Golang.Decimal.{is_digit, parse_int, itoa_int}
use systems_trinkets.Common.{
  ℕ, ◌-◌, ◌^◌, Bool, true, false, not, ◌&&◌, ◌||◌, Option, none, some, List, [], ◌∷◌, ◌++◌, leb,
  ◌==◌, if◌then◌else◌, ℤ, is_negative, at_most, Bytes, codes, bytes_eq, is_empty, cut, length, all,
}

abbrev pub is_lower_alnum : ℕ → Bool
is_lower_alnum c = (leb b'a' c && leb c b'z') || is_digit c

abbrev pub is_alnum : ℕ → Bool
is_alnum c = (leb b'a' c && leb c b'z') || (leb b'A' c && leb c b'Z') || is_digit c

-- The states of a matcher of `^[a-z0-9]+(-[a-z0-9]+)*$`: a word must start, a word has started, or
-- the text does not match.
pub data KebabState : Type 0 where
  at_start in_word failed : KebabState

abbrev pub kebab_step : KebabState → ℕ → KebabState
kebab_step at_start c = if is_lower_alnum c then in_word else failed
kebab_step in_word c = if is_lower_alnum c then in_word else if c == b'-' then at_start else failed
kebab_step failed c = failed

unfoldable pub kebab_from : KebabState → Bytes → Bool
kebab_from st (c ∷ s) = kebab_from (kebab_step st c) s
kebab_from in_word [] = true
kebab_from at_start [] = false
kebab_from failed [] = false

-- `lessonRE`, and `nameRE` of image.go, which is the same expression
unfoldable pub lesson_re : Bytes → Bool
unfolding kebab_from
lesson_re s = kebab_from at_start s

abbrev pub is_name_byte : ℕ → Bool
is_name_byte c = is_alnum c || c == b'_' || c == b'.' || c == b'-'

-- `networkNameRE`: `^[a-zA-Z0-9][a-zA-Z0-9_.-]*$`
unfoldable pub network_name_re : Bytes → Bool
network_name_re [] = false
network_name_re (c ∷ s) = is_alnum c && all is_name_byte s

-- `volumeNameRE`: `^[a-zA-Z0-9][a-zA-Z0-9_.-]+$`
unfoldable pub volume_name_re : Bytes → Bool
volume_name_re [] = false
volume_name_re (c ∷ s) = is_alnum c && (not (is_empty s) && all is_name_byte s)

-- `suffixRE`: `^[a-z0-9]{1,32}$`
unfoldable pub suffix_re : Bytes → Bool
suffix_re s = not (is_empty s) && (leb (length s) 32 && all is_lower_alnum s)

-- `capRE`: `^[A-Za-z0-9_]+$`
unfoldable pub cap_re : Bytes → Bool
cap_re s = not (is_empty s) && all (λ c. is_alnum c || c == b'_') s

-- `numericIDRE`: `^[0-9]+$`
unfoldable pub numeric_id_re : Bytes → Bool
numeric_id_re s = not (is_empty s) && all is_digit s

abbrev pub max_id : ℕ
max_id = 2 ^ 31 - 1

unfoldable pub valid_id : ℤ → Bool
valid_id n = not (is_negative n) && at_most n max_id

-- `n, err := strconv.ParseInt(s, 10, 64); err == nil && validID(n)`
abbrev pub parsed_id_valid : Option ℤ → Bool
parsed_id_valid none = false
parsed_id_valid (some n) = valid_id n

unfoldable pub valid_numeric_id : Bytes → Bool
valid_numeric_id s = if not (numeric_id_re s) then false else parsed_id_valid (parse_int s)

-- `strings.Cut(u, ":")` gives the uid and, with `hasGID`, the gid.
unfoldable pub valid_user : Bytes → Bool
valid_user u =
    let (uid, gid) = cut b':' u in
    valid_numeric_id uid && elim gid [ none ↦ true | some g ↦ valid_numeric_id g ]

-- `owner` of topology.go
unfoldable pub owner : ℤ → ℤ → Bytes
owner uid gid = itoa_int uid ++ (b':' ∷ itoa_int gid)

unfoldable pub container_name : Bytes → Bytes → Bytes → Bytes
container_name lesson role suffix =
    codes "trinkets-" ++ (lesson ++ (codes "-" ++ (role ++ (codes "-" ++ suffix))))

-- A `map[string]string`; a key that is missing reads as "".
abbrev pub StringMap : Type 0
StringMap = List (Bytes × Bytes)

unfoldable pub map_get : StringMap → Bytes → Bytes
map_get [] k = []
map_get ((j, v) ∷ m) k = if bytes_eq j k then v else map_get m k

abbrev pub label_harness : Bytes
label_harness = codes "trinkets.harness"

abbrev pub label_lesson : Bytes
label_lesson = codes "trinkets.lesson"

unfoldable pub labels : Bytes → StringMap
labels lesson = (label_harness, codes "1") ∷ (label_lesson, lesson) ∷ []

-- `ownedBy` of cleanup.go
unfoldable pub owned_by : StringMap → Bytes → Bool
owned_by labels lesson =
    bytes_eq (map_get labels label_harness) (codes "1")
    && bytes_eq (map_get labels label_lesson) lesson
