-- ===== src/Docker/Image/Context.antt =====
-- The build context of a valid image passes `contextNamesClean`, so `writeTar` never refuses it.
use mathlib.Core.Path.{ap₂}
use systems_trinkets.Golang.Decimal.{itoa, itoa_cons, itoa-IsDigit, IsDigit, itoa-injective}
use systems_trinkets.Golang.Paths.{clean, slash, clean_pair}
use systems_trinkets.Golang.Utf8.{valid_string, valid_string_ascii}
use systems_trinkets.Docker.Image.{
  OwnedDir, FixtureImage, validate, owned_src, ContextFile, context_dir, dir_entries, context_files,
  fixture_context, name_violation, names_clean, context_names_clean, tar_entry, write_tar,
  fixture_context_tar, ImageError, invalid_image,
}
use systems_trinkets.Common.{
  ℕ, ◌+◌, ◌≤◌, ◌<◌, ◌≡◌, refl, ◌≢◌, inl, inr, true, false, ◌||◌, none, some, List, [], ◌∷◌, ◌++◌,
  map, arith, ltb, ◌==◌, if◌then◌else◌, Bool-cases, ok, err, Bytes, codes, bytes_eq, bytes_eq_iff,
  bytes_eq_refl, contains, has_prefix, Lacks, split, length, any, All, All_imp,
}

-- What a print of a number is, seen as a path segment.
record Segment (s : Bytes) : Type 0 where
  first : ℕ
  others : Bytes
  splits : s ≡ first ∷ others
  no_dot : first ≢ b'.'
  digits : All IsDigit s

itoa-Segment : (n : ℕ) → Segment (itoa n)
itoa-Segment n =
    let (c, s, e, d) = itoa_cons n in
    record { first = c; others = s; splits = e; no_dot = ground arith; digits = itoa-IsDigit n }

clean-Segment_path : (s : Bytes) → Segment s → clean (codes "d/" ++ s) ≡ codes "d/" ++ s
clean-Segment_path s g =
    let lacks : Lacks slash (g.first ∷ g.others) =
      All_imp (λ c d. ground arith) (g.first ∷ g.others) (rw g.splits at g.digits) in
    rw g.splits (clean_pair b'd' g.first g.others (omega arith) (omega arith) g.no_dot lacks)

any_nul : (s : Bytes) → All IsDigit s → any (λ c. c == b'\\' || c == 0) s ≡ false
any_nul [] h = refl
any_nul (c ∷ s) (h, hs) = ground (arith, any_nul s hs)

Segment-violation :
    (seen : List Bytes) (s : Bytes)
    → Segment s
    → contains seen (codes "d/" ++ s) ≡ false
    → name_violation seen (codes "d/" ++ s) ≡ []
unfolding name_violation bytes_eq has_prefix
Segment-violation seen s g fresh =
    let ascii : valid_string (codes "d/" ++ s) ≡ true =
      valid_string_ascii (codes "d/" ++ s)
        (omega arith, (omega arith, All_imp (λ c d. ground arith) s g.digits)) in
    rw (clean-Segment_path s g) (rw (bytes_eq_refl s) (rw (any_nul s g.digits, ascii, fresh)))

owned_src_violation :
    (seen : List Bytes) (i : ℕ)
    → contains seen (owned_src i) ≡ false
    → name_violation seen (owned_src i) ≡ []
unfolding owned_src
owned_src_violation seen i h = Segment-violation seen (itoa i) (itoa-Segment i) h

tail_eq : (s t : Bytes) → codes "d/" ++ s ≡ codes "d/" ++ t → s ≡ t
tail_eq s t h = cc

owned_src-differs : (i j : ℕ) → i < j → bytes_eq (owned_src j) (owned_src i) ≡ false
unfolding owned_src
owned_src-differs i j h = elim (Bool-cases (bytes_eq (owned_src j) (owned_src i))) [
  | inr e ↦ e
  | inl e ↦ absurd (omega (arith, itoa-injective j i (tail_eq _ _ ((bytes_eq_iff _ _).0 e))))
]

-- No name of a directory from the i-th on was seen.
abbrev Fresh : List Bytes → ℕ → Type 0
Fresh seen i = (j : ℕ) → i ≤ j → contains seen (owned_src j) ≡ false

Fresh-next : (seen : List Bytes) (i : ℕ) → Fresh seen i → Fresh (owned_src i ∷ seen) (i + 1)
Fresh-next seen i h j le = rw (owned_src-differs i j (omega arith)) (h j (omega arith))

names_clean-dir_entries :
    (ds : List OwnedDir) (i : ℕ) (seen : List Bytes)
    → Fresh seen i
    → names_clean seen (dir_entries i ds) ≡ []
unfolding dir_entries names_clean
names_clean-dir_entries [] i seen h = refl
names_clean-dir_entries (d ∷ ds) i seen h =
    rw (owned_src_violation seen i (h i (omega arith)))
      (names_clean-dir_entries ds (i + 1) (owned_src i ∷ seen) (Fresh-next seen i h))

abbrev base_names : List Bytes
base_names = codes "d" ∷ codes "fixture" ∷ codes "Dockerfile" ∷ []

Fresh-base : Fresh base_names 0
unfolding owned_src bytes_eq
Fresh-base j h = refl

base_clean :
    (seen : List Bytes)
    → (name_violation [] (codes "Dockerfile") ≡ [])
      × (name_violation (codes "Dockerfile" ∷ []) (codes "fixture") ≡ [])
      × (name_violation (codes "fixture" ∷ codes "Dockerfile" ∷ []) (codes "d") ≡ [])
unfolding name_violation bytes_eq clean split has_prefix valid_string
base_clean seen = (refl, refl, refl)

context_files-clean :
    (img : FixtureImage) (binary : Bytes) → context_names_clean (context_files img binary) ≡ []
unfolding context_names_clean context_files names_clean
context_files-clean img binary = go img.dirs
  where
    go :
        (ds : List OwnedDir)
        → name_violation [] (codes "Dockerfile")
            ++ (name_violation (codes "Dockerfile" ∷ []) (codes "fixture")
                ++ names_clean (codes "fixture" ∷ codes "Dockerfile" ∷ []) (
                    (if ltb 0 (length ds) then context_dir (codes "d") ∷ [] else [])
                    ++ dir_entries 0 ds))
          ≡ []
    go [] = rw ((base_clean []).0, (base_clean []).1) (unfold dir_entries in refl)
    go (d ∷ ds) =
        let more : ltb 0 (length (d ∷ ds)) ≡ true = ground arith in
        rw ((base_clean []).0, (base_clean []).1)
          (rw more (
            ap₂ ◌++◌ ((base_clean []).2)
              (names_clean-dir_entries (d ∷ ds) 0 base_names Fresh-base)))

fixture_context-valid :
    (img : FixtureImage) (binary : Bytes)
    → validate img ≡ none
    → fixture_context img binary ≡ ok (context_files img binary)
unfolding fixture_context
fixture_context-valid img binary h = rw (h, fixture_context)

write_tar-clean :
    (files : List ContextFile)
    → context_names_clean files ≡ []
    → write_tar files ≡ ok (map tar_entry files)
unfolding write_tar
write_tar-clean files h = rw (h, write_tar)

-- The build context of an image is made exactly when the image is valid, and then `writeTar` does not
-- refuse it: every name in it is relative, clean, free of backslashes and NUL, and used once.
pub fixture_context_tar_lem :
    (img : FixtureImage) (binary : Bytes)
    → (context_names_clean (context_files img binary) ≡ [])
      × (validate img ≡ none
          → fixture_context_tar img binary ≡ ok (map tar_entry (context_files img binary)))
      × ((e : ImageError)
          → validate img ≡ some e
          → fixture_context_tar img binary ≡ err (invalid_image e))
unfolding fixture_context_tar
fixture_context_tar_lem img binary = (context_files-clean img binary, accepted, refused)
  where
    accepted :
        validate img ≡ none
        → fixture_context_tar img binary ≡ ok (map tar_entry (context_files img binary))
    accepted h =
        rw (fixture_context-valid img binary h, fixture_context_tar)
          (rw (
            write_tar-clean (context_files img binary) (context_files-clean img binary),
            fixture_context_tar,
          ))

    refused :
        (e : ImageError)
        → validate img ≡ some e
        → fixture_context_tar img binary ≡ err (invalid_image e)
    refused e h =
        let f : fixture_context img binary ≡ err e =
          unfold fixture_context in rw (h, fixture_context) in
        rw (f, fixture_context_tar)
