-- ===== src/Probeout/Sanitized.antt =====
-- `Sanitize`, and the lines that `OK` and `Denied` build.
use systems_trinkets.Common.{
  ◌≤◌, ◌<◌, ◌≡◌, refl, ◌≢◌, ◌⊎◌, inl, inr, true, none, [], ◌∷◌, arith, Bool-cases, Bytes, length,
}
use systems_trinkets.Probeout.{
  Line, valid_detail, blank_controls, sanitize, valid_name, ok_line, denied_line,
}

blank_controls-valid : (s : Bytes) → valid_detail (blank_controls s) ≡ true
unfolding blank_controls valid_detail
blank_controls-valid [] = refl
blank_controls-valid (c ∷ s) = ground (arith, blank_controls-valid s)

length-blank_controls : (s : Bytes) → length (blank_controls s) ≡ length s
unfolding blank_controls
length-blank_controls [] = refl
length-blank_controls (c ∷ s) = omega (arith, length-blank_controls s)

pub valid_detail-sanitize : (s : Bytes) → valid_detail (sanitize s) ≡ true
unfolding sanitize
valid_detail-sanitize s = elim (Bool-cases (valid_detail s)) [
  | inl h ↦ rw h h
  | inr h ↦ rw h (blank_controls-valid s)
]

-- Byte for byte: a control byte became a space, and any other byte stayed.
abbrev pub Blanked : Bytes → Bytes → Type 0
Blanked [] [] = Unit
Blanked (c ∷ s) (d ∷ t) =
    ((((c < 32) ⊎ (c ≡ 127)) × (d ≡ 32)) ⊎ ((32 ≤ c) × (c ≢ 127) × (d ≡ c))) × Blanked s t
Blanked _ _ = ⊥

blank_controls-Blanked : (s : Bytes) → Blanked s (blank_controls s)
unfolding blank_controls
blank_controls-Blanked [] = tt
blank_controls-Blanked (c ∷ s) = (ground arith, blank_controls-Blanked s)

valid_detail-Blanked : (s : Bytes) → valid_detail s ≡ true → Blanked s s
unfolding valid_detail
valid_detail-Blanked [] h = tt
valid_detail-Blanked (c ∷ s) h = (ground arith, valid_detail-Blanked s (ground arith))

-- In a sanitized text each control byte (below 0x20, or 0x7f) is a space and every other byte is as it was.
-- So it has no control byte, and its length is kept; a second pass leaves it alone, and a text with no
-- control byte is returned as it is.
pub sanitize_lem :
    (s : Bytes)
    → Blanked s (sanitize s)
      × (valid_detail (sanitize s) ≡ true)
      × (length (sanitize s) ≡ length s)
      × (sanitize (sanitize s) ≡ sanitize s)
      × (valid_detail s ≡ true → sanitize s ≡ s)
unfolding sanitize
sanitize_lem s = elim (Bool-cases (valid_detail s)) [
  | inl h ↦ rw h (rw h (valid_detail-Blanked s h, refl, refl, refl, λ _. refl))
  | inr h ↦ rw h (
      rw (blank_controls-valid s)
        (blank_controls-Blanked s, refl, length-blank_controls s, refl, λ e. absurd (cc)))
]

-- A line that the format can print and read back: no error, a legal name, and a legal detail.
pub record IsWellFormed (l : Line) : Type 0 where
  pub no_error : l.err ≡ none
  pub no_raw : l.raw ≡ []
  pub name_valid : valid_name l.name ≡ true
  pub detail_valid : valid_detail l.detail ≡ true

pub ok_line-IsWellFormed :
    (name detail : Bytes) → valid_name name ≡ true → IsWellFormed (ok_line name detail)
unfolding ok_line
ok_line-IsWellFormed name detail h = record {
  no_error = refl;
  no_raw = refl;
  name_valid = h;
  detail_valid = valid_detail-sanitize detail;
}

pub denied_line-IsWellFormed :
    (name text : Bytes) → valid_name name ≡ true → IsWellFormed (denied_line name text)
unfolding denied_line
denied_line-IsWellFormed name text h = record {
  no_error = refl;
  no_raw = refl;
  name_valid = h;
  detail_valid = valid_detail-sanitize text;
}
