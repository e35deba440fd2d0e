-- ===== src/Lab/Settings.antt =====
-- What the settings of a performance adapter can be.
use systems_trinkets.Golang.Decimal.{parse_int, itoa_int, InInt64, parse_int-itoa_int, itoa_cons}
use systems_trinkets.Lab.{Environment, env, bounded, int_setting}
use systems_trinkets.Common.{
  ◌≡◌, refl, sym, subst, ◌↔◌, ◌⊎◌, inl, inr, true, false, ◌&&◌, Option, none, some, [], Bool-cases,
  and_true, and_intro, ℤ, int_le, pos, negsuc, Bytes, is_empty,
}

bounded_lem :
    (low high : ℤ) (parsed : Option ℤ) (n : ℤ)
    → (bounded low high parsed ≡ some n)
      ↔ ((parsed ≡ some n) × (int_le low n ≡ true) × (int_le n high ≡ true))
unfolding bounded
bounded_lem low high none n = (λ h. absurd (cc), λ (h, a, b). absurd (cc))
bounded_lem low high (some m) n = elim (Bool-cases (int_le low m && int_le m high)) [
  | inl i ↦
      let (a, b) = and_true _ _ i in
      (
        λ h.
            let e : some m ≡ some n = (rw i at h) in
            let same : m ≡ n = cc in
            (e, subst (λ k. int_le low k ≡ true) same a, subst (λ k. int_le k high ≡ true) same b),
        λ (e, l, h). rw i e,
      )
  | inr i ↦ (
    λ h. let e : none ≡ some n = (rw i at h) in absurd (cc),
    λ (e, l, h).
        let same : m ≡ n = cc in
        let both : (int_le low m && int_le m high) ≡ true =
          and_intro (int_le low m) (int_le m high) (subst (λ k. int_le low k ≡ true) (sym same) l)
            (subst (λ k. int_le k high ≡ true) (sym same) h) in
        absurd (cc),
  )
]

itoa_int_nonempty : (n : ℤ) → is_empty (itoa_int n) ≡ false
unfolding itoa_int
itoa_int_nonempty (pos n) = let (c, s, e, d) = itoa_cons n in rw e refl
itoa_int_nonempty (negsuc n) = refl

-- `Int` returns a number only within its bounds. Where the variable is unset or empty, the fallback
-- is returned, and where it is the decimal text of a number, that number, if in either case it is an
-- int64 within the bounds.
pub int_setting_lem :
    (getenv : Environment) (name : Bytes) (fallback low high n : ℤ)
    → (int_setting getenv name fallback low high ≡ some n
        → (int_le low n ≡ true) × (int_le n high ≡ true))
      × (InInt64 n
          → int_le low n ≡ true
          → int_le n high ≡ true
          → (getenv name ≡ itoa_int n) ⊎ ((getenv name ≡ []) × (n ≡ fallback))
          → int_setting getenv name fallback low high ≡ some n)
unfolding int_setting env
int_setting_lem getenv name fallback low high n = (
  λ h. let (e, l, k) = (bounded_lem low high _ n).0 h in (l, k),
  λ i l h c. (bounded_lem low high _ n).1 (read c i, l, h),
)
  where
    read :
        (getenv name ≡ itoa_int n) ⊎ ((getenv name ≡ []) × (n ≡ fallback))
        → InInt64 n
        → parse_int (env getenv name (itoa_int fallback)) ≡ some n
    read (inr (e, f)) i = rw (e, ← f) (parse_int-itoa_int n i)
    read (inl e) i = rw (e, itoa_int_nonempty n) (parse_int-itoa_int n i)
