-- ===== src/Common/Text.antt =====
-- Go strings as lists of bytes, and the functions of package strings that the program calls.
use Prim.Native.Nat.{zero, suc, ℕ}
use Prim.Native.Char.{code}
use Prim.Native.String.{String}
use mathlib.Core.Path.{◌≡◌, refl, ap}
use mathlib.Core.Logic.{◌⊎◌, inl, inr, ◌≢◌, ◌↔◌, inl, inr}
use mathlib.Core.Bool.{◌||◌, Bool, true, false, ◌&&◌}
use mathlib.Core.Option.{Option, none, some}
use mathlib.Core.List.{List, [], ◌∷◌, ◌++◌}
use native.Mathlib.Omega.{arith}
use systems_trinkets.Common.Tests.{leb, ◌==◌, if◌then◌else◌, Bool-cases, Option-cases, ◌>>=◌}
use systems_trinkets.Common.Lists.{All, any, length, length-append, gather}

abbrev pub Bytes : Type 0
Bytes = List ℕ

-- the bytes of a literal (every literal of the program is ASCII)
abbrev pub codes : String → Bytes
codes String.[] = []
codes (String.◌∷◌ c s) = code c ∷ codes s

unfoldable pub bytes_eq : Bytes → Bytes → Bool
bytes_eq [] [] = true
bytes_eq (x ∷ xs) (y ∷ ys) = x == y && bytes_eq xs ys
bytes_eq _ _ = false

pub bytes_eq_iff : (a b : Bytes) → (bytes_eq a b ≡ true) ↔ (a ≡ b)
unfolding bytes_eq
bytes_eq_iff (x ∷ a) (y ∷ b) = ground (arith, bytes_eq_iff a b)
bytes_eq_iff _ _ = ground arith

pub bytes_eq_refl : (a : Bytes) → bytes_eq a a ≡ true
bytes_eq_refl a = (bytes_eq_iff a a).1 refl

abbrev pub is_empty : Bytes → Bool
is_empty [] = true
is_empty (c ∷ s) = false

-- `slices.Contains`
abbrev pub contains : List Bytes → Bytes → Bool
contains xs s = any (bytes_eq s) xs

-- `strings.CutPrefix`: what follows the prefix.
unfoldable pub cut_prefix : Bytes → Bytes → Option Bytes
cut_prefix [] s = some s
cut_prefix (c ∷ p) [] = none
cut_prefix (c ∷ p) (d ∷ s) = if c == d then cut_prefix p s else none

-- `strings.HasPrefix`, the prefix first
unfoldable pub has_prefix : Bytes → Bytes → Bool
has_prefix [] s = true
has_prefix (c ∷ p) [] = false
has_prefix (c ∷ p) (d ∷ s) = c == d && has_prefix p s

pub has_prefix-append : (p s : Bytes) → has_prefix p (p ++ s) ≡ true
unfolding has_prefix
has_prefix-append [] s = refl
has_prefix-append (c ∷ p) s = ground (arith, has_prefix-append p s)

pub cut_prefix_sound : (p s : Bytes) {r : Bytes} → cut_prefix p s ≡ some r → s ≡ p ++ r
unfolding cut_prefix
cut_prefix_sound [] s h = ground arith
cut_prefix_sound (c ∷ p) [] h = cc
cut_prefix_sound (c ∷ p) (d ∷ s) {r} h = ground (arith, cut_prefix_sound p s {r = r})

pub cut_prefix-append : (p s : Bytes) → cut_prefix p (p ++ s) ≡ some s
unfolding cut_prefix
cut_prefix-append [] s = refl
cut_prefix-append (c ∷ p) s = ground (arith, cut_prefix-append p s)

-- `strings.Cut` at a one-byte separator: the part before the first one, and the part after it.
unfoldable pub cut : ℕ → Bytes → Bytes × Option Bytes
cut sep [] = ([], none)
cut sep (c ∷ s) =
    let (before, after) = cut sep s in if c == sep then ([], some s) else (c ∷ before, after)

abbrev pub Lacks : ℕ → Bytes → Type 0
Lacks b = All (λ c. c ≢ b)

pub cut_at_sep : (sep : ℕ) (p s : Bytes) → Lacks sep p → cut sep (p ++ sep ∷ s) ≡ (p, some s)
unfolding cut
cut_at_sep sep [] s h = ground arith
cut_at_sep sep (c ∷ p) s (h, hs) = ground (arith, cut_at_sep sep p s hs)

pub cut-Lacks : (sep : ℕ) (p : Bytes) → Lacks sep p → cut sep p ≡ (p, none)
unfolding cut
cut-Lacks sep [] h = refl
cut-Lacks sep (c ∷ p) (h, hs) = ground (arith, cut-Lacks sep p hs)

-- `strings.CutSuffix`: what stands before the suffix.
unfoldable pub cut_suffix : Bytes → Bytes → Option Bytes
cut_suffix suf [] = if bytes_eq suf [] then some [] else none
cut_suffix suf (c ∷ s) =
    if bytes_eq suf (c ∷ s) then some [] else (cut_suffix suf s >>= λ r. some (c ∷ r))

-- `strings.HasSuffix`, the suffix first
unfoldable pub has_suffix : Bytes → Bytes → Bool
has_suffix suf s = elim (cut_suffix suf s) [ some r ↦ true | none ↦ false ]

-- `strings.TrimSuffix`, the suffix first
unfoldable pub trim_suffix : Bytes → Bytes → Bytes
trim_suffix suf s = elim (cut_suffix suf s) [ some r ↦ r | none ↦ s ]

pub cut_suffix_sound : (suf s : Bytes) {r : Bytes} → cut_suffix suf s ≡ some r → s ≡ r ++ suf
unfolding cut_suffix
cut_suffix_sound suf [] h = ground (arith, bytes_eq_iff suf [])
cut_suffix_sound suf (c ∷ s) h = elim (Option-cases (cut_suffix suf s)) [
  | inl e ↦ ground (arith, bytes_eq_iff suf (c ∷ s))
  | inr (q, e) ↦ ground (arith, bytes_eq_iff suf (c ∷ s), cut_suffix_sound suf s {r = q} e)
]

pub trim_suffix_lem :
    (suf s : Bytes)
    → ((has_suffix suf s ≡ true) × (s ≡ trim_suffix suf s ++ suf))
      ⊎ ((has_suffix suf s ≡ false) × (trim_suffix suf s ≡ s))
unfolding has_suffix trim_suffix
trim_suffix_lem suf s = go (cut_suffix suf s) refl
  where
    go :
        (o : Option Bytes)
        → cut_suffix suf s ≡ o
        → ((elim o [ some r ↦ true | none ↦ false ]) ≡ true)
            × (s ≡ (elim o [ some r ↦ r | none ↦ s ]) ++ suf)
          ⊎ ((elim o [ some r ↦ true | none ↦ false ]) ≡ false)
            × ((elim o [ some r ↦ r | none ↦ s ]) ≡ s)
    go none e = inr (refl, refl)
    go (some r) e = inl (refl, cut_suffix_sound suf s {r = r} e)

longer_differs : (c : ℕ) (r suf : Bytes) → bytes_eq suf (c ∷ (r ++ suf)) ≡ false
longer_differs c r suf = elim (Bool-cases (bytes_eq suf (c ∷ (r ++ suf)))) [
  | inr e ↦ e
  | inl e ↦
      let len = ap length ((bytes_eq_iff _ _).0 e) in
      absurd (omega (arith, len, length-append r suf))
]

pub cut_suffix-append : (suf r : Bytes) → cut_suffix suf (r ++ suf) ≡ some r
unfolding cut_suffix
cut_suffix-append [] [] = unfold bytes_eq in refl
cut_suffix-append (d ∷ suf) [] = rw (bytes_eq_refl (d ∷ suf))
cut_suffix-append suf (c ∷ r) = rw (longer_differs c r suf, cut_suffix-append suf r)

pub trim_suffix-append : (suf r : Bytes) → trim_suffix suf (r ++ suf) ≡ r
unfolding trim_suffix
trim_suffix-append suf r = rw (cut_suffix-append suf r, trim_suffix)

pub has_suffix-append : (suf r : Bytes) → has_suffix suf (r ++ suf) ≡ true
unfolding has_suffix
has_suffix-append suf r = rw (cut_suffix-append suf r, has_suffix)

-- `strings.Index` of a separator that is not empty, with the slices before and after the match.
unfoldable pub cut_on : Bytes → Bytes → Option (Bytes × Bytes)
cut_on sep [] = none
cut_on sep (c ∷ s) =
    let later = cut_on sep s >>= λ p. some (c ∷ p.0, p.1) in
    elim (cut_prefix sep (c ∷ s)) [ some r ↦ some ([], r) | none ↦ later ]

pub cut_on_sound : (sep s : Bytes) (b a : Bytes) → cut_on sep s ≡ some (b, a) → s ≡ b ++ (sep ++ a)
unfolding cut_on
cut_on_sound sep [] b a h = cc
cut_on_sound sep (c ∷ s) b a h = elim (Option-cases (cut_prefix sep (c ∷ s))) [
  | inr (r, e) ↦ ground (arith, cut_prefix_sound sep (c ∷ s) {r = r} e)
  | inl e ↦ elim (Option-cases (cut_on sep s)) [
    | inl f ↦ absurd (ground arith)
    | inr (p, f) ↦ ground (arith, cut_on_sound sep s p.0 p.1 f)
  ]
]

cut_prefix_differs : (c d : ℕ) (p s : Bytes) → d ≢ c → cut_prefix (c ∷ p) (d ∷ s) ≡ none
unfolding cut_prefix
cut_prefix_differs c d p s h = ground arith

-- A separator `c ∷ sep` is found right behind a text that lacks `c`.
pub cut_on-Lacks :
    (c : ℕ) (sep b a : Bytes) → Lacks c b → cut_on (c ∷ sep) (b ++ (c ∷ (sep ++ a))) ≡ some (b, a)
unfolding cut_on
cut_on-Lacks c sep [] a h = rw (cut_prefix-append (c ∷ sep) a, cut_on)
cut_on-Lacks c sep (d ∷ b) a (h, hs) =
    ground (arith, cut_on-Lacks c sep b a hs, cut_prefix_differs c d sep (b ++ (c ∷ (sep ++ a))) h)

-- `strings.Split` at a one-byte separator: at least one part.
push_first : ℕ → List Bytes → List Bytes
push_first c [] = (c ∷ []) ∷ []
push_first c (p ∷ ps) = (c ∷ p) ∷ ps

unfoldable pub split : ℕ → Bytes → List Bytes
unfolding push_first
split sep [] = [] ∷ []
split sep (c ∷ s) = let rest = split sep s in if c == sep then [] ∷ rest else push_first c rest

pub split-ne-nil : (sep : ℕ) (s : Bytes) → split sep s ≢ []
unfolding split
split-ne-nil sep [] = cc
split-ne-nil sep (c ∷ s) = ground arith

-- Each part of a split, ended by the separator: the text and one more separator.
pub gather-split : (sep : ℕ) (s : Bytes) → gather (λ p. p ++ sep ∷ []) (split sep s) ≡ s ++ sep ∷ []
unfolding split
gather-split sep [] = refl
gather-split sep (c ∷ s) = ground (arith, gather-split sep s, split-ne-nil sep s)

pub split-Lacks : (sep : ℕ) (p : Bytes) → Lacks sep p → split sep p ≡ p ∷ []
unfolding split
split-Lacks sep [] h = refl
split-Lacks sep (c ∷ p) (h, hs) = ground (arith, split-Lacks sep p hs)

pub split_at_sep :
    (sep : ℕ) (p s : Bytes) → Lacks sep p → split sep (p ++ sep ∷ s) ≡ p ∷ split sep s
unfolding split
split_at_sep sep [] s h = ground arith
split_at_sep sep (c ∷ p) s (h, hs) = ground (arith, split_at_sep sep p s hs)

-- `strings.Contains`, the part first
unfoldable pub has_infix : Bytes → Bytes → Bool
has_infix part [] = has_prefix part []
has_infix part (c ∷ s) = has_prefix part (c ∷ s) || has_infix part s

-- The bytes of ASCII white space.
abbrev pub is_space : ℕ → Bool
is_space c = c == b' ' || c == b'\t' || c == b'\n' || c == 0x0b || c == 0x0c || c == b'\r'

-- `unicode.IsSpace` outside ASCII, in UTF-8: U+0085 and U+00A0, and the nineteen of three bytes. The first of
-- these bytes is never inside another encoding, so they are found at any offset.
abbrev pub wide_space2 : ℕ → ℕ → Bool
wide_space2 c d = c == 0xc2 && (d == 0x85 || d == 0xa0)

abbrev pub wide_space3 : ℕ → ℕ → ℕ → Bool
wide_space3 c d e =
    (c == 0xe1 && (d == 0x9a && e == 0x80))
    || ((c == 0xe2
          && ((d == 0x80 && ((leb 0x80 e && leb e 0x8a) || (e == 0xa8 || (e == 0xa9 || e == 0xaf))))
              || (d == 0x81 && e == 0x9f)))
        || (c == 0xe3 && (d == 0x80 && e == 0x80)))

-- The number of bytes of the white space that a text starts with, 0 for none.
unfoldable pub space_length : Bytes → ℕ
space_length [] = 0
space_length (c ∷ []) = if is_space c then 1 else 0
space_length (c ∷ d ∷ []) = if is_space c then 1 else if wide_space2 c d then 2 else 0
space_length (c ∷ d ∷ e ∷ s) =
    if is_space c then 1 else if wide_space2 c d then 2 else if wide_space3 c d e then 3 else 0

-- The text with one blank for each white space; `k` bytes of one are still to be left out.
unfoldable pub blank_spaces : ℕ → Bytes → Bytes
unfolding space_length
blank_spaces k [] = []
blank_spaces (suc k) (c ∷ s) = blank_spaces k s
blank_spaces zero (c ∷ s) = elim (space_length (c ∷ s)) [
  | zero ↦ c ∷ blank_spaces zero s
  | suc k ↦ b' ' ∷ blank_spaces k s
]

-- A field, if it is not empty, in front of the others.
abbrev add_field : Bytes × List Bytes → List Bytes
add_field (f, fs) = if is_empty f then fs else f ∷ fs

-- The field that the text starts with, and the fields behind it.
unfoldable pub fields_from : Bytes → Bytes × List Bytes
fields_from [] = ([], [])
fields_from (c ∷ s) =
    let (f, fs) = fields_from s in if is_space c then ([], add_field (f, fs)) else (c ∷ f, fs)

-- `strings.Fields`
unfoldable pub fields : Bytes → List Bytes
unfolding fields_from blank_spaces
fields s = add_field (fields_from (blank_spaces 0 s))

has_prefix_sound : (p s : Bytes) → has_prefix p s ≡ true → (r : Bytes) × (s ≡ p ++ r)
unfolding has_prefix
has_prefix_sound [] s h = (s, refl)
has_prefix_sound (c ∷ p) [] h = absurd (cc)
has_prefix_sound (c ∷ p) (d ∷ s) h =
    let (r, e) = has_prefix_sound p s (ground arith) in (r, ground (arith, e))

-- A prefix is a way to write the text.
pub has_prefix_iff : (p s : Bytes) → (has_prefix p s ≡ true) ↔ ((r : Bytes) × (s ≡ p ++ r))
has_prefix_iff p s = (has_prefix_sound p s, λ (r, e). rw e (has_prefix-append p r))

has_infix_sound :
    (part s : Bytes) → has_infix part s ≡ true → (a : Bytes) × (b : Bytes) × (s ≡ a ++ (part ++ b))
unfolding has_infix
has_infix_sound part [] h = let (r, e) = has_prefix_sound part [] h in ([], r, e)
has_infix_sound part (c ∷ s) h = elim (Bool-cases (has_prefix part (c ∷ s))) [
  | inl e ↦ let (r, f) = has_prefix_sound part (c ∷ s) e in ([], r, f)
  | inr e ↦ let (a, b, f) = has_infix_sound part s (ground arith) in (c ∷ a, b, ap (◌∷◌ c) f)
]

has_infix-append : (a part b : Bytes) → has_infix part (a ++ (part ++ b)) ≡ true
unfolding has_infix
has_infix-append [] [] [] = unfold has_prefix in refl
has_infix-append [] [] (d ∷ b) = unfold has_prefix in refl
has_infix-append [] (c ∷ part) b = rw (has_prefix-append (c ∷ part) b)
has_infix-append (d ∷ a) part b = ground (arith, has_infix-append a part b)

pub has_infix_iff :
    (part s : Bytes)
    → (has_infix part s ≡ true) ↔ ((a : Bytes) × (b : Bytes) × (s ≡ a ++ (part ++ b)))
has_infix_iff part s = (has_infix_sound part s, λ (a, b, e). rw e (has_infix-append a part b))
