-- ===== src/Golang/Sorting.antt =====
-- `strings.Compare`, `slices.Sort`, `slices.SortFunc` and `slices.Compact` on byte strings.
use mathlib.Core.List.{Perm}
use mathlib.Core.List.Perm
use systems_trinkets.Common.{
  ◌≡◌, refl, inl, inr, Bool, true, false, List, [], ◌∷◌, ◌++◌, arith, ltb, ◌==◌, if◌then◌else◌,
  Bool-cases, Bytes, bytes_eq, All, All_imp,
}

-- `a <= b` in the order of `strings.Compare`
unfoldable pub bytes_le : Bytes → Bytes → Bool
bytes_le [] b = true
bytes_le (x ∷ a) [] = false
bytes_le (x ∷ a) (y ∷ b) = if x == y then bytes_le a b else ltb x y

pub bytes_le_total : (a b : Bytes) → bytes_le a b ≡ false → bytes_le b a ≡ true
unfolding bytes_le
bytes_le_total [] b h = cc
bytes_le_total (x ∷ a) [] h = refl
bytes_le_total (x ∷ a) (y ∷ b) h = ground (arith, bytes_le_total a b)

pub bytes_le_trans :
    (a b c : Bytes) → bytes_le a b ≡ true → bytes_le b c ≡ true → bytes_le a c ≡ true
unfolding bytes_le
bytes_le_trans [] b c h k = refl
bytes_le_trans (x ∷ a) [] c h k = cc
bytes_le_trans (x ∷ a) (y ∷ b) [] h k = cc
bytes_le_trans (x ∷ a) (y ∷ b) (z ∷ c) h k = ground (arith, bytes_le_trans a b c)

-- A prefix comes no later.
pub bytes_le-append : (a b : Bytes) → bytes_le a (a ++ b) ≡ true
unfolding bytes_le
bytes_le-append [] b = refl
bytes_le-append (x ∷ a) b = ground (arith, bytes_le-append a b)

module _ {ℓ} {A : Type ℓ} (key : A → Bytes) where
  insert_by : A → List A → List A
  insert_by a [] = a ∷ []
  insert_by a (b ∷ bs) = if bytes_le (key a) (key b) then a ∷ (b ∷ bs) else b ∷ insert_by a bs

  -- The elements in the order of their keys: `slices.SortFunc` with `strings.Compare` of the keys.
  unfoldable pub sort_by : List A → List A
  unfolding insert_by
  sort_by [] = []
  sort_by (a ∷ xs) = insert_by a (sort_by xs)

  abbrev pub IsSorted : List A → Type 0
  IsSorted [] = Unit
  IsSorted (a ∷ xs) = All (λ b. bytes_le (key a) (key b) ≡ true) xs × IsSorted xs

  insert_by-perm : (a : A) (xs : List A) → Perm (insert_by a xs) (a ∷ xs)
  unfolding insert_by
  insert_by-perm a [] = Perm.refl _
  insert_by-perm a (b ∷ bs) = elim (Bool-cases (bytes_le (key a) (key b))) [
    | inl e ↦ rw e (Perm.refl _)
    | inr e ↦ rw e (Perm.trans (Perm.cons b (insert_by-perm a bs)) (Perm.swap _ _ _))
  ]

  pub sort_by-perm : (xs : List A) → Perm (sort_by xs) xs
  unfolding sort_by
  sort_by-perm [] = Perm.refl _
  sort_by-perm (a ∷ xs) = Perm.trans (insert_by-perm a (sort_by xs)) (Perm.cons a (sort_by-perm xs))

  insert_by-All {κ} :
      (P : A → Type κ) (a : A) (xs : List A) → P a → All P xs → All P (insert_by a xs)
  unfolding insert_by
  insert_by-All P a [] h hs = (h, hs)
  insert_by-All P a (b ∷ bs) h (hb, hs) = elim (Bool-cases (bytes_le (key a) (key b))) [
    | inl e ↦ rw e (h, (hb, hs))
    | inr e ↦ rw e (hb, insert_by-All P a bs h hs)
  ]

  pub sort_by-All {κ} : (P : A → Type κ) (xs : List A) → All P xs → All P (sort_by xs)
  unfolding sort_by
  sort_by-All P [] h = h
  sort_by-All P (a ∷ xs) (h, hs) = insert_by-All P a (sort_by xs) h (sort_by-All P xs hs)

  insert_by-IsSorted : (a : A) (xs : List A) → IsSorted xs → IsSorted (insert_by a xs)
  unfolding insert_by
  insert_by-IsSorted a [] h = (tt, tt)
  insert_by-IsSorted a (b ∷ bs) (hb, hs) = elim (Bool-cases (bytes_le (key a) (key b))) [
    | inl e ↦
        rw e ((e, All_imp (λ x r. bytes_le_trans (key a) (key b) (key x) e r) bs hb), (hb, hs))
    | inr e ↦ rw e (
      insert_by-All (λ x. bytes_le (key b) (key x) ≡ true) a bs (bytes_le_total (key a) (key b) e)
          hb,
      insert_by-IsSorted a bs hs,
    )
  ]

  pub sort_by-IsSorted : (xs : List A) → IsSorted (sort_by xs)
  unfolding sort_by
  sort_by-IsSorted [] = tt
  sort_by-IsSorted (a ∷ xs) = insert_by-IsSorted a (sort_by xs) (sort_by-IsSorted xs)

-- `slices.Sort` on strings
unfoldable pub sort : List Bytes → List Bytes
sort = sort_by (λ s. s)

-- `slices.Compact`: runs of equal strings become one.
compact_after : Bytes → List Bytes → List Bytes
compact_after last [] = []
compact_after last (s ∷ ss) =
    let rest = compact_after s ss in if bytes_eq last s then rest else s ∷ rest

unfoldable pub compact : List Bytes → List Bytes
unfolding compact_after
compact [] = []
compact (s ∷ ss) = s ∷ compact_after s ss

pub bytes_le_antisym : (a b : Bytes) → bytes_le a b ≡ true → bytes_le b a ≡ true → a ≡ b
unfolding bytes_le
bytes_le_antisym [] [] h k = refl
bytes_le_antisym [] (y ∷ b) h k = absurd (cc)
bytes_le_antisym (x ∷ a) [] h k = absurd (cc)
bytes_le_antisym (x ∷ a) (y ∷ b) h k = ground (arith, bytes_le_antisym a b)
