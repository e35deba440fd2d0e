-- ===== src/Golang/Decimal.antt =====
-- `strconv.Itoa`, `strconv.ParseInt(s, 10, 64)` and `strconv.Atoi`.
use systems_trinkets.Common.{
  ap, ℕ, zero, suc, ◌+◌, ◌-◌, ◌*◌, ◌/◌, ◌%◌, ◌^◌, ◌≤◌, ◌<◌, ◌≡◌, refl, ◌∙◌, ◌≢◌, Bool, true, false,
  ◌&&◌, Option, none, some, [], ◌∷◌, arith, ltb, leb, ◌==◌, if◌then◌else◌, ◌>>=◌, ℤ, pos, negsuc,
  Bytes, is_empty, Lacks, All, All_imp,
}

abbrev pub is_digit : ℕ → Bool
is_digit c = leb b'0' c && leb c b'9'

-- The number that digits spell behind `n`; `none` at any other byte.
unfoldable pub digits_value : Bytes → ℕ → Option ℕ
digits_value [] n = some n
digits_value (c ∷ s) n =
    let rest = digits_value s (n * 10 + (c - b'0')) in if is_digit c then rest else none

abbrev unsigned_value : Bytes → Option ℕ
unsigned_value s = if is_empty s then none else digits_value s 0

abbrev pub max_int64 : ℕ
max_int64 = 2 ^ 63 - 1

abbrev int64_of_pos : ℕ → Option ℤ
int64_of_pos n = if leb n max_int64 then some (pos n) else none

-- -n, for n at most 2^63
abbrev int64_of_neg : ℕ → Option ℤ
int64_of_neg zero = some (pos 0)
int64_of_neg (suc n) = if leb n max_int64 then some (negsuc n) else none

-- `strconv.ParseInt(s, 10, 64)` and `strconv.Atoi` on a 64-bit machine: one optional sign, then
-- digits, in range. `none` stands for any error.
unfoldable pub parse_int : Bytes → Option ℤ
parse_int [] = none
parse_int (c ∷ s) =
    if c == b'-'
    then unsigned_value s >>= int64_of_neg
    else if c == b'+'
    then unsigned_value s >>= int64_of_pos
    else unsigned_value (c ∷ s) >>= int64_of_pos

-- The digits of `n` in front of `out`. The fuel bounds the number of digits.
emit : ℕ → ℕ → Bytes → Bytes
emit zero n out = out
emit (suc f) n out =
    let digit = b'0' + n % 10 in
    let rest = emit f (n / 10) (digit ∷ out) in if ltb n 10 then digit ∷ out else rest

-- `strconv.Itoa` of a number that is not negative
unfoldable pub itoa : ℕ → Bytes
unfolding emit
itoa n = emit (suc n) n []

unfoldable pub itoa_int : ℤ → Bytes
itoa_int (pos n) = itoa n
itoa_int (negsuc n) = b'-' ∷ itoa (suc n)

emit_value : (f n : ℕ) (out : Bytes) → n < f → digits_value (emit f n out) 0 ≡ digits_value out n
unfolding emit digits_value
emit_value zero n out h = elim h [ ]
emit_value (suc f) n out h = ground (arith, emit_value f (n / 10) ((b'0' + n % 10) ∷ out))

emit-ne-nil : (f n : ℕ) (out : Bytes) → out ≢ [] → emit f n out ≢ []
unfolding emit
emit-ne-nil zero n out h = h
emit-ne-nil (suc f) n out h = ground (arith, emit-ne-nil f (n / 10) ((b'0' + n % 10) ∷ out))

itoa-ne-nil : (n : ℕ) → itoa n ≢ []
unfolding itoa emit
itoa-ne-nil n = ground (arith, emit-ne-nil n (n / 10) ((b'0' + n % 10) ∷ []))

pub digits_value-itoa : (n : ℕ) → digits_value (itoa n) 0 ≡ some n
unfolding itoa
digits_value-itoa n = emit_value (suc n) n [] (omega arith) ∙ unfold digits_value in refl

abbrev pub IsDigit : ℕ → Type 0
IsDigit c = is_digit c ≡ true

emit-IsDigit : (f n : ℕ) (out : Bytes) → All IsDigit out → All IsDigit (emit f n out)
unfolding emit
emit-IsDigit zero n out h = h
emit-IsDigit (suc f) n out h = ground (arith, emit-IsDigit f (n / 10) ((b'0' + n % 10) ∷ out))

pub itoa-IsDigit : (n : ℕ) → All IsDigit (itoa n)
unfolding itoa
itoa-IsDigit n = emit-IsDigit (suc n) n [] tt

-- A print is not empty and starts with a digit.
pub itoa_cons : (n : ℕ) → (c : ℕ) × (s : Bytes) × (itoa n ≡ c ∷ s) × (is_digit c ≡ true)
itoa_cons n = go (itoa n) (itoa-ne-nil n) (itoa-IsDigit n)
  where
    go :
        (t : Bytes)
        → t ≢ []
        → All IsDigit t
        → (c : ℕ) × (s : Bytes) × (t ≡ c ∷ s) × (is_digit c ≡ true)
    go [] ne h = absurd (ne refl)
    go (c ∷ s) ne h = (c, s, refl, h.0)

pub parse_int-digits :
    (c : ℕ) (s : Bytes)
    → is_digit c ≡ true
    → parse_int (c ∷ s) ≡ (digits_value (c ∷ s) 0 >>= int64_of_pos)
unfolding parse_int
parse_int-digits c s h = ground arith

-- Every `int64` that is not negative is read back from its print.
pub parse_int-itoa : (n : ℕ) → n ≤ max_int64 → parse_int (itoa n) ≡ some (pos n)
parse_int-itoa n h =
    let (c, s, e, d) = itoa_cons n in
    let v : digits_value (c ∷ s) 0 ≡ some n = rw (← e) (digits_value-itoa n) in
    rw e (parse_int-digits c s d ∙ rw v (ground arith))

-- The range of `int` and `int64`.
abbrev pub InInt64 : ℤ → Type 0
InInt64 (pos n) = n ≤ max_int64
InInt64 (negsuc n) = n ≤ max_int64

parse_int-minus : (s : Bytes) → parse_int (b'-' ∷ s) ≡ (unsigned_value s >>= int64_of_neg)
unfolding parse_int
parse_int-minus s = refl

unsigned_value-itoa : (n : ℕ) → unsigned_value (itoa n) ≡ some n
unsigned_value-itoa n =
    let (c, s, e, d) = itoa_cons n in
    let v : digits_value (c ∷ s) 0 ≡ some n = rw (← e) (digits_value-itoa n) in rw e v

-- Every `int64` is read back from its print.
pub parse_int-itoa_int : (z : ℤ) → InInt64 z → parse_int (itoa_int z) ≡ some z
unfolding itoa_int
parse_int-itoa_int (pos n) h = parse_int-itoa n h
parse_int-itoa_int (negsuc n) h =
    parse_int-minus (itoa (suc n)) ∙ rw (unsigned_value-itoa (suc n)) (ground arith)

pub itoa_int-Lacks : (b : ℕ) (z : ℤ) → is_digit b ≡ false → b ≢ b'-' → Lacks b (itoa_int z)
unfolding itoa_int
itoa_int-Lacks b (pos n) h k = All_imp (λ c d. ground arith) (itoa n) (itoa-IsDigit n)
itoa_int-Lacks b (negsuc n) h k =
    (ground arith, All_imp (λ c d. ground arith) (itoa (suc n)) (itoa-IsDigit (suc n)))

-- Two numbers with one print are equal.
pub itoa-injective : (n m : ℕ) → itoa n ≡ itoa m → n ≡ m
itoa-injective n m h = cc (digits_value-itoa n, digits_value-itoa m, ap (λ s. digits_value s 0) h)
