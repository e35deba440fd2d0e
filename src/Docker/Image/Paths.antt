-- ===== src/Docker/Image/Paths.antt =====
-- `validateOwnedPath`: what a path that goes into a Dockerfile is.
use systems_trinkets.Golang.Paths.{clean, is_abs}
use systems_trinkets.Docker.Image.{
  owned_path_char, fixture_binary, whiteout_prefix, validate_owned_path, json_byte, json_string,
}
use systems_trinkets.Common.{
  ◌≡◌, refl, ◌≢◌, ◌↔◌, Bool, true, false, none, [], ◌∷◌, ◌++◌, arith, Bytes, codes, bytes_eq,
  bytes_eq_iff, is_empty, has_prefix, has_infix, has_prefix_iff, has_infix_iff, all, gather,
}

pub record OwnedPathOk (p : Bytes) : Type 0 where
  pub absolute : is_abs p ≡ true
  pub not_root : p ≢ codes "/"
  pub plain : all owned_path_char p ≡ true
  pub is_clean : clean p ≡ p
  pub not_binary : p ≢ fixture_binary
  pub not_below : ¬ ((r : Bytes) × (p ≡ fixture_binary ++ (codes "/" ++ r)))
  pub no_whiteout : ¬ ((a : Bytes) × (b : Bytes) × (p ≡ a ++ (codes "/.wh." ++ b)))

-- The tests of the function, each as a value.
record Tests (p : Bytes) : Type 0 where
  nonempty : is_empty p ≡ false
  absolute : is_abs p ≡ true
  root : bytes_eq p (codes "/") ≡ false
  plain : all owned_path_char p ≡ true
  is_clean : bytes_eq (clean p) p ≡ true
  binary : bytes_eq p fixture_binary ≡ false
  below : has_prefix (fixture_binary ++ codes "/") p ≡ false
  whiteout : has_infix (codes "/" ++ whiteout_prefix) p ≡ false

validate-Tests : (p : Bytes) → (validate_owned_path p ≡ none) ↔ Tests p
unfolding validate_owned_path
validate-Tests p = (λ h. ground arith, λ t. ground arith)

false_of_not : (b : Bool) → ¬ (b ≡ true) → b ≡ false
false_of_not true h = absurd (h refl)
false_of_not false h = refl

Tests-OwnedPathOk : (p : Bytes) → Tests p → OwnedPathOk p
Tests-OwnedPathOk p t = record {
  absolute = t.absolute;
  not_root = λ e. cc (t.root, (bytes_eq_iff p (codes "/")).1 e);
  plain = t.plain;
  is_clean = (bytes_eq_iff _ _).0 t.is_clean;
  not_binary = λ e. cc (t.binary, (bytes_eq_iff p fixture_binary).1 e);
  not_below = λ (r, e). cc (t.below, (has_prefix_iff (fixture_binary ++ codes "/") p).1 (r, e));
  no_whiteout = λ (a, b, e). cc (t.whiteout, (has_infix_iff (codes "/.wh.") p).1 (a, b, e));
}

OwnedPathOk-Tests : (p : Bytes) → OwnedPathOk p → Tests p
OwnedPathOk-Tests p k = record {
  nonempty = nonempty_of p k.absolute;
  absolute = k.absolute;
  root = false_of_not _ (λ e. k.not_root ((bytes_eq_iff p (codes "/")).0 e));
  plain = k.plain;
  is_clean = (bytes_eq_iff _ _).1 k.is_clean;
  binary = false_of_not _ (λ e. k.not_binary ((bytes_eq_iff p fixture_binary).0 e));
  below = false_of_not _ (λ e. k.not_below ((has_prefix_iff (fixture_binary ++ codes "/") p).0 e));
  whiteout = false_of_not _ (λ e. k.no_whiteout ((has_infix_iff (codes "/.wh.") p).0 e));
}
  where
    nonempty_of : (q : Bytes) → is_abs q ≡ true → is_empty q ≡ false
    nonempty_of [] h = absurd (cc)
    nonempty_of (c ∷ q) h = refl

json_bytes-plain : (p : Bytes) → all owned_path_char p ≡ true → gather json_byte p ≡ p
unfolding json_byte
json_bytes-plain [] h = refl
json_bytes-plain (c ∷ p) h = ground (arith, json_bytes-plain p)

-- A path is accepted exactly when it is absolute and not the root, clean, in the allowed alphabet,
-- neither the fixture binary nor below it, and without a segment that starts with ".wh.". Quoted for
-- the Dockerfile, an accepted path stands there as it is.
pub validate_owned_path_lem :
    (p : Bytes)
    → ((validate_owned_path p ≡ none) ↔ OwnedPathOk p)
      × (validate_owned_path p ≡ none → json_string p ≡ codes "\"" ++ (p ++ codes "\""))
unfolding json_string
validate_owned_path_lem p =
    let tests = validate-Tests p in
    (
      (λ h. Tests-OwnedPathOk p (tests.0 h), λ k. tests.1 (OwnedPathOk-Tests p k)),
      λ h. rw (json_bytes-plain p (tests.0 h).plain),
    )
