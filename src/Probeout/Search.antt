-- ===== src/Probeout/Search.antt =====
-- `Find` and `Malformed`.
use systems_trinkets.Common.{
  ◌≡◌, refl, sym, ap, ◌∙◌, subst, ◌↔◌, ◌⊎◌, inl, inr, false, not, ◌&&◌, none, some, List, [], ◌∷◌,
  ◌++◌, arith, Bool-cases, and_true, Bytes, bytes_eq, bytes_eq_iff, All,
}
use systems_trinkets.Probeout.{Line, malformed, find}

-- The line called `name` is well formed.
abbrev Named : Bytes → Line → Type 0
Named name l = (malformed l ≡ false) × (l.name ≡ name)

-- What `Find` found: no line before it is well formed with that name, and it is.
pub record FoundAt (ls : List Line) (name : Bytes) (l : Line) : Type 0 where
  pub before : List Line
  pub after : List Line
  pub splits : ls ≡ before ++ (l ∷ after)
  pub is_named : Named name l
  pub first : All (λ k. ¬ (Named name k)) before

find_here : (l : Line) (name : Bytes) → (Named name l) ⊎ (¬ (Named name l))
find_here l name = elim (Bool-cases (malformed l)) [
  | inl e ↦ inr (λ h. cc)
  | inr e ↦ elim (Bool-cases (bytes_eq l.name name)) [
    | inl f ↦ inl (e, (bytes_eq_iff l.name name).0 f)
    | inr f ↦ inr (λ h. cc ((bytes_eq_iff l.name name).1 h.1))
  ]
]

find-Named : (l : Line) (ls : List Line) (name : Bytes) → Named name l → find (l ∷ ls) name ≡ some l
unfolding find
find-Named l ls name (e, f) = rw (e, (bytes_eq_iff l.name name).1 f)

find-not_Named :
    (l : Line) (ls : List Line) (name : Bytes)
    → ¬ (Named name l)
    → find (l ∷ ls) name ≡ find ls name
unfolding find
find-not_Named l ls name h = elim (Bool-cases (not (malformed l) && bytes_eq l.name name)) [
  | inr e ↦ rw e
  | inl e ↦ absurd (h (ground (arith), (bytes_eq_iff l.name name).0 (and_true _ _ e).1))
]

same_line :
    (k l : Line) (ls : List Line) (name : Bytes)
    → Named name k
    → find (k ∷ ls) name ≡ some l
    → k ≡ l
same_line k l ls name n h = cc (find-Named k ls name n)

find-FoundAt :
    (ls : List Line) (name : Bytes) (l : Line) → find ls name ≡ some l → FoundAt ls name l
find-FoundAt [] name l h = absurd (unfold find in cc)
find-FoundAt (k ∷ ls) name l h = elim (find_here k name) [
  | inl n ↦ record {
    before = [];
    after = ls;
    splits = ap (λ x. x ∷ ls) (same_line k l ls name n h);
    is_named = subst (Named name) (same_line k l ls name n h) n;
    first = tt;
  }
  | inr n ↦
      let f = find-FoundAt ls name l (sym (find-not_Named k ls name n) ∙ h) in
      record {
        before = k ∷ f.before;
        after = f.after;
        splits = ap (◌∷◌ k) f.splits;
        is_named = f.is_named;
        first = (n, f.first);
      }
]

find-none : (ls : List Line) (name : Bytes) → (find ls name ≡ none) ↔ All (λ k. ¬ (Named name k)) ls
find-none [] name = (λ _. tt, λ _. unfold find in refl)
find-none (k ∷ ls) name = elim (find_here k name) [
  | inl n ↦ (λ e. absurd (cc (find-Named k ls name n)), λ a. absurd (a.0 n))
  | inr n ↦ (
    λ e. (n, (find-none ls name).0 (sym (find-not_Named k ls name n) ∙ e)),
    λ a. find-not_Named k ls name n ∙ (find-none ls name).1 a.1,
  )
]

-- `Find` returns the first well-formed line of the name, and finds nothing exactly when there is
-- no such line.
pub find_lem :
    (ls : List Line) (name : Bytes)
    → ((l : Line) → find ls name ≡ some l → FoundAt ls name l)
      × ((find ls name ≡ none) ↔ All (λ k. ¬ (Named name k)) ls)
find_lem ls name = (find-FoundAt ls name, find-none ls name)
