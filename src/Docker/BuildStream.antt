-- ===== src/Docker/BuildStream.antt =====
-- The stream of a classic image build, of internal/lab/docker/image.go: `parseBuildStream` and
-- `buildFailure`.
pub mod Reports
use systems_trinkets.Common.{
  ℕ, ◌+◌, Bool, true, false, ◌||◌, Option, none, some, List, [], ◌∷◌, reverse, ◌==◌, if◌then◌else◌,
  ◌>>=◌, Bytes, codes, bytes_eq, is_empty, split,
}

-- What encoding/json makes of one line of the build output: text that is no JSON value of the map's
-- type, `null`, or an object, here by its keys with the raw text of their values; and of such a raw
-- text, the `Message` of a detail and a string.
pub data Unmarshalled : Type 0 where
  invalid null : Unmarshalled
  object : List (Bytes × Bytes) → Unmarshalled

pub record StreamJson : Type 0 where
  pub unmarshal : Bytes → Unmarshalled
  pub detail_message : Bytes → Option Bytes
  pub string_value : Bytes → Option Bytes

pub data StreamError : Type 0 where
  build_failed : Bytes → StreamError
  not_an_object : ℕ → StreamError
  read_failed : StreamError

unfoldable pub key_value : List (Bytes × Bytes) → Bytes → Option Bytes
key_value [] k = none
key_value ((j, v) ∷ m) k = if bytes_eq j k then some v else key_value m k

abbrev pub nonempty : Option Bytes → Option Bytes
nonempty none = none
nonempty (some []) = none
nonempty (some (c ∷ s)) = some (c ∷ s)

abbrev pub is_some {ℓ} : {A : Type ℓ} → Option A → Bool
is_some none = false
is_some (some a) = true

abbrev pub is_blank : ℕ → Bool
is_blank c = c == b' ' || (c == b'\t' || (c == b'\r' || c == b'\n'))

unfoldable pub trim_left : Bytes → Bytes
trim_left [] = []
trim_left (c ∷ s) = if is_blank c then trim_left s else c ∷ s

-- `bytes.Trim(line, " \t\r\n")`
unfoldable pub trim : Bytes → Bytes
trim s = reverse (trim_left (reverse (trim_left s)))

module _ (json : StreamJson) where
  -- The first of errorDetail.message, the error string and the line that is not empty.
  failure_text : List (Bytes × Bytes) → Bytes → Bytes
  failure_text obj text =
      elim (nonempty (key_value obj (codes "errorDetail") >>= json.detail_message)) [
        | some m ↦ m
        | none ↦ elim (nonempty (key_value obj (codes "error") >>= json.string_value)) [
          | some m ↦ m
          | none ↦ text
        ]
      ]

  unfoldable pub build_failure : List (Bytes × Bytes) → Bytes → Option StreamError
  unfolding failure_text
  build_failure obj text =
      if is_some (key_value obj (codes "errorDetail")) || is_some (key_value obj (codes "error"))
      then some (build_failed (failure_text obj text))
      else none

  -- One line: the failure and the malformed line found so far, and those after it. Both keep the
  -- first that is found.
  unfoldable pub line_step :
      ℕ → Bytes → Option StreamError × Option StreamError → Option StreamError × Option StreamError
  line_step n line (failure, malformed) =
      let text = trim line in
      if is_empty text then (failure, malformed) else elim (json.unmarshal text) [
        | invalid ↦ (failure, if is_some malformed then malformed else some (not_an_object n))
        | null ↦ (failure, if is_some malformed then malformed else some (not_an_object n))
        | object obj ↦ (if is_some failure then failure else build_failure obj text, malformed)
      ]

  unfoldable pub read_lines :
      ℕ
      → List Bytes
      → Option StreamError × Option StreamError
      → Option StreamError × Option StreamError
  read_lines n [] st = st
  read_lines n (l ∷ ls) st = read_lines (n + 1) ls (line_step n l st)

  -- `parseBuildStream` on the text that the reader gave before it ended, with an error or (`false`)
  -- at the end of the stream.
  unfoldable pub parse_build_stream : Bytes → Bool → Option StreamError
  parse_build_stream text read_error =
      let (failure, malformed) = read_lines 1 (split b'\n' text) (none, none) in
      if is_some failure
      then failure
      else if is_some malformed
      then malformed
      else if read_error
      then some read_failed
      else none
