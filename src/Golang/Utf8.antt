-- ===== src/Golang/Utf8.antt =====
-- `utf8.ValidString`: the byte ranges of well-formed UTF-8 sequences.
use systems_trinkets.Common.{
  ℕ, ◌<◌, ◌≡◌, refl, Bool, true, false, ◌&&◌, Option, none, some, List, [], ◌∷◌, arith, ltb, leb,
  ◌==◌, if◌then◌else◌, Bytes, All,
}

abbrev pub within : ℕ → ℕ → ℕ → Bool
within lo hi c = leb lo c && leb c hi

abbrev Range : Type 0
Range = ℕ × ℕ

abbrev tail : Range
tail = (0x80, 0xbf)

-- The ranges that must follow a first byte; `none` for a byte that starts no sequence.
sequence_after : ℕ → Option (List Range)
sequence_after c =
    if ltb c 0x80
    then some []
    else if within 0xc2 0xdf c
    then some (tail ∷ [])
    else if c == 0xe0
    then some ((0xa0, 0xbf) ∷ tail ∷ [])
    else if c == 0xed
    then some ((0x80, 0x9f) ∷ tail ∷ [])
    else if within 0xe1 0xef c
    then some (tail ∷ tail ∷ [])
    else if c == 0xf0
    then some ((0x90, 0xbf) ∷ tail ∷ tail ∷ [])
    else if within 0xf1 0xf3 c
    then some (tail ∷ tail ∷ tail ∷ [])
    else if c == 0xf4
    then some ((0x80, 0x8f) ∷ tail ∷ tail ∷ [])
    else none

valid_from : List Range → Bytes → Bool
unfolding sequence_after
valid_from [] [] = true
valid_from (r ∷ rs) [] = false
valid_from [] (c ∷ s) = elim (sequence_after c) [ none ↦ false | some rs ↦ valid_from rs s ]
valid_from (r ∷ rs) (c ∷ s) = if within r.0 r.1 c then valid_from rs s else false

unfoldable pub valid_string : Bytes → Bool
unfolding valid_from
valid_string s = valid_from [] s

-- Every ASCII text is valid.
pub valid_string_ascii : (s : Bytes) → All (λ c. c < 0x80) s → valid_string s ≡ true
unfolding valid_string
valid_string_ascii [] h = refl
valid_string_ascii (c ∷ s) (h, hs) =
    let e : sequence_after c ≡ some [] = unfold sequence_after in ground arith in
    rw (e, valid_from) (valid_string_ascii s hs)

valid_string_tests :
    (valid_string (0xc3 ∷ 0xa9 ∷ []) ≡ true)
    × (valid_string (0xff ∷ []) ≡ false)
    × (valid_string (0xe2 ∷ 0x82 ∷ []) ≡ false)
    × (valid_string (0xed ∷ 0xa0 ∷ 0x80 ∷ []) ≡ false)
unfolding valid_string
valid_string_tests = (refl, refl, refl, refl)
