-- ===== src/Docker/Names/Laws.antt =====
-- What the matchers accept, and the numeric identities that the harness prints itself.
use systems_trinkets.Golang.Decimal.{
  is_digit, IsDigit, itoa, itoa_int, itoa-IsDigit, itoa_cons, parse_int-itoa,
}
use systems_trinkets.Docker.Names.{
  at_start, in_word, failed, kebab_from, lesson_re, is_lower_alnum, numeric_id_re, max_id, valid_id,
  valid_numeric_id, valid_user, owner,
}
use systems_trinkets.Common.{
  ℕ, ◌≤◌, ◌≡◌, refl, ap, ◌↔◌, inl, inr, true, false, List, [], ◌∷◌, ◌++◌, arith, Bool-cases,
  and_intro, ℤ, pos, negsuc, Bytes, is_empty, Lacks, cut_at_sep, all, All, All_imp,
}

pub lesson_re-ne-nil : (s : Bytes) → lesson_re s ≡ true → is_empty s ≡ false
unfolding lesson_re
lesson_re-ne-nil [] h = cc
lesson_re-ne-nil (c ∷ s) h = refl

-- The language of the expression: words of letters and digits, joined by single hyphens.
abbrev IsWord : Bytes → Type 0
IsWord s = (is_empty s ≡ false) × (all is_lower_alnum s ≡ true)

abbrev hyphened : List Bytes → Bytes
hyphened [] = []
hyphened (w ∷ ws) = b'-' ∷ (w ++ hyphened ws)

pub record IsKebab (s : Bytes) : Type 0 where
  pub word : Bytes
  pub words : List Bytes
  pub splits : s ≡ word ++ hyphened words
  pub is_word : IsWord word
  pub are_words : All IsWord words

kebab_from-failed : (s : Bytes) → kebab_from failed s ≡ false
unfolding kebab_from
kebab_from-failed [] = refl
kebab_from-failed (c ∷ s) = kebab_from-failed s

kebab_from-hyphened :
    (w : Bytes) (ws : List Bytes)
    → all is_lower_alnum w ≡ true
    → All IsWord ws
    → kebab_from in_word (w ++ hyphened ws) ≡ true
unfolding kebab_from
kebab_from-hyphened [] [] h hs = refl
kebab_from-hyphened [] ([] ∷ ws) h (hv, hs) = absurd (cc hv.0)
kebab_from-hyphened [] ((c ∷ v) ∷ ws) h (hv, hs) =
    ground (arith, kebab_from-hyphened v ws (ground (arith, hv)) hs)
kebab_from-hyphened (c ∷ w) ws h hs = ground (arith, kebab_from-hyphened w ws)

-- What a text holds behind a word's first byte.
record Rest (s : Bytes) : Type 0 where
  word : Bytes
  words : List Bytes
  splits : s ≡ word ++ hyphened words
  lower : all is_lower_alnum word ≡ true
  are_words : All IsWord words

Rest-more : {s : Bytes} (c : ℕ) → is_lower_alnum c ≡ true → Rest s → Rest (c ∷ s)
Rest-more c h r = record {
  word = c ∷ r.word;
  words = r.words;
  splits = ap (◌∷◌ c) r.splits;
  lower = and_intro _ _ h r.lower;
  are_words = r.are_words;
}

Rest-hyphen :
    {s : Bytes} (c d : ℕ) → c ≡ b'-' → is_lower_alnum d ≡ true → Rest s → Rest (c ∷ (d ∷ s))
Rest-hyphen c d e h r = record {
  word = [];
  words = (d ∷ r.word) ∷ r.words;
  splits = cc (ap (λ t. d ∷ t) r.splits);
  lower = refl;
  are_words = ((refl, and_intro _ _ h r.lower), r.are_words);
}

Rest-nil : Rest []
Rest-nil = record { word = []; words = []; splits = refl; lower = refl; are_words = tt }

kebab_more :
    (c : ℕ) (s : Bytes)
    → is_lower_alnum c ≡ true
    → kebab_from in_word (c ∷ s) ≡ true
    → kebab_from in_word s ≡ true
unfolding kebab_from
kebab_more c s e h = ground arith

kebab_first :
    (c : ℕ) (s : Bytes)
    → kebab_from at_start (c ∷ s) ≡ true
    → (is_lower_alnum c ≡ true) × (kebab_from in_word s ≡ true)
unfolding kebab_from
kebab_first c s h = ground (arith, kebab_from-failed s)

kebab_dash :
    (c : ℕ) (s : Bytes)
    → is_lower_alnum c ≡ false
    → kebab_from in_word (c ∷ s) ≡ true
    → (c ≡ b'-') × (kebab_from at_start s ≡ true)
unfolding kebab_from
kebab_dash c s e h = ground (arith, kebab_from-failed s)

Rest-of : (s : Bytes) → kebab_from in_word s ≡ true → Rest s
Rest-of [] h = Rest-nil
Rest-of (c ∷ []) h = elim (Bool-cases (is_lower_alnum c)) [
  | inl e ↦ Rest-more c e Rest-nil
  | inr e ↦ absurd (unfold kebab_from in cc (kebab_dash c [] e h).1)
]
Rest-of (c ∷ (d ∷ s)) h = elim (Bool-cases (is_lower_alnum c)) [
  | inl e ↦ Rest-more c e (Rest-of (d ∷ s) (kebab_more c (d ∷ s) e h))
  | inr e ↦
      let (dash, start) = kebab_dash c (d ∷ s) e h in
      let (lower, later) = kebab_first d s start in Rest-hyphen c d dash lower (Rest-of s later)
]

-- `lessonRE` accepts exactly the texts that are words of lower-case letters and digits, joined by
-- single hyphens.
pub lesson_re_iff : (s : Bytes) → (lesson_re s ≡ true) ↔ IsKebab s
unfolding lesson_re
lesson_re_iff s = (accepted s, λ k. rw k.splits (matches k.word k.words k.is_word k.are_words))
  where
    matches :
        (w : Bytes) (ws : List Bytes)
        → IsWord w
        → All IsWord ws
        → kebab_from at_start (w ++ hyphened ws) ≡ true
    matches [] ws h hs = absurd (cc h.0)
    matches (c ∷ w) ws h hs = ground (arith, kebab_from-hyphened w ws)

    accepted : (t : Bytes) → kebab_from at_start t ≡ true → IsKebab t
    accepted [] h = absurd (cc)
    accepted (c ∷ t) h =
        let (lower, later) = kebab_first c t h in
        let r = Rest-of t later in
        record {
          word = c ∷ r.word;
          words = r.words;
          splits = ap (◌∷◌ c) r.splits;
          is_word = (refl, and_intro _ _ lower r.lower);
          are_words = r.are_words;
        }

itoa-numeric : (n : ℕ) → numeric_id_re (itoa n) ≡ true
unfolding numeric_id_re
itoa-numeric n =
    let (c, s, e, d) = itoa_cons n in rw e (all_digits (c ∷ s) (rw e at (itoa-IsDigit n)))
  where
    all_digits : (t : Bytes) → All IsDigit t → all is_digit t ≡ true
    all_digits [] h = refl
    all_digits (c ∷ t) (h, hs) = and_intro _ _ h (all_digits t hs)

valid_numeric_id-itoa : (n : ℕ) → n ≤ max_id → valid_numeric_id (itoa n) ≡ true
unfolding valid_numeric_id valid_id
valid_numeric_id-itoa n h = rw (itoa-numeric n) (rw (parse_int-itoa n (omega arith)) (ground arith))

pub valid_numeric_id-itoa_int : (z : ℤ) → valid_id z ≡ true → valid_numeric_id (itoa_int z) ≡ true
unfolding valid_id itoa_int
valid_numeric_id-itoa_int (pos n) h = valid_numeric_id-itoa n (ground arith)
valid_numeric_id-itoa_int (negsuc n) h = absurd (cc)

itoa-Lacks : (n : ℕ) → Lacks b':' (itoa n)
itoa-Lacks n = All_imp (λ c d. ground arith) (itoa n) (itoa-IsDigit n)

-- The user that the harness writes for two identities in range is a valid one.
pub valid_user-owner :
    (uid gid : ℤ) → valid_id uid ≡ true → valid_id gid ≡ true → valid_user (owner uid gid) ≡ true
unfolding valid_user owner valid_id itoa_int
valid_user-owner (negsuc n) gid h k = absurd (cc)
valid_user-owner (pos n) (negsuc m) h k = absurd (cc)
valid_user-owner (pos n) (pos m) h k = rw (cut_at_sep b':' (itoa n) (itoa m) (itoa-Lacks n)) (
    and_intro _ _ (valid_numeric_id-itoa n (ground arith)) (valid_numeric_id-itoa m (ground arith)))
