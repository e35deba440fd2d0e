-- ===== src/Common/Lists.antt =====
-- Lists measured by native numbers, and predicates that hold of every element.
use Prim.Native.Nat.{ℕ, suc, ◌+◌}
use mathlib.Core.Path.{◌≡◌, refl}
use mathlib.Core.Bool.{Bool, true, false, ◌&&◌, ◌||◌}
use mathlib.Core.List.{List, [], ◌∷◌, ◌++◌}
use native.Mathlib.Omega.{arith}

module _ {ℓ} {A : Type ℓ} where
  abbrev pub length : List A → ℕ
  length [] = 0
  length (x ∷ xs) = suc (length xs)

  pub length-append : (xs ys : List A) → length (xs ++ ys) ≡ length xs + length ys
  length-append [] ys = omega arith
  length-append (x ∷ xs) ys = omega (arith, length-append xs ys)

  pub append_eq_nil : (xs ys : List A) → xs ++ ys ≡ [] → (xs ≡ []) × (ys ≡ [])
  append_eq_nil [] ys h = (refl, h)
  append_eq_nil (x ∷ xs) ys h = cc

  -- `slices.ContainsFunc`
  abbrev pub any : (A → Bool) → List A → Bool
  any f [] = false
  any f (x ∷ xs) = f x || any f xs

  abbrev pub all : (A → Bool) → List A → Bool
  all f [] = true
  all f (x ∷ xs) = f x && all f xs

  -- Appends to a list of results in a loop: every element's results, in order.
  abbrev pub gather {κ} : {B : Type κ} → (A → List B) → List A → List B
  gather f [] = []
  gather f (x ∷ xs) = f x ++ gather f xs

module _ {ℓ κ} {A : Type ℓ} (P : A → Type κ) where
  abbrev pub All : List A → Type κ
  All [] = Unit
  All (x ∷ xs) = P x × All xs

  pub All-append : (xs ys : List A) → All xs → All ys → All (xs ++ ys)
  All-append [] ys _ hy = hy
  All-append (x ∷ xs) ys (px, hx) hy = (px, All-append xs ys hx hy)

pub All_imp {ℓ κ ι} :
    {A : Type ℓ} {P : A → Type κ} {Q : A → Type ι}
    → ((x : A) → P x → Q x)
    → (xs : List A) → All P xs
    → All Q xs
All_imp h [] _ = tt
All_imp h (x ∷ xs) (px, hx) = (h x px, All_imp h xs hx)

module _ {ℓ κ} {A : Type ℓ} {B : Type κ} (f : A → List B) where
  pub gather_eq_nil : (xs : List A) → gather f xs ≡ [] → All (λ x. f x ≡ []) xs
  gather_eq_nil [] h = tt
  gather_eq_nil (x ∷ xs) h =
      let (here, later) = append_eq_nil (f x) (gather f xs) h in (here, gather_eq_nil xs later)

  pub gather-nil : (xs : List A) → All (λ x. f x ≡ []) xs → gather f xs ≡ []
  gather-nil [] h = refl
  gather-nil (x ∷ xs) (h, hs) = rw (h, gather-nil xs hs)

-- A place of an element in a list.
pub data Mem {ℓ} {A : Type ℓ} (a : A) : List A → Type ℓ where
  here : {x : A} {xs : List A} → a ≡ x → Mem a (x ∷ xs)
  there : {x : A} {xs : List A} → Mem a xs → Mem a (x ∷ xs)

pub Mem-append_left {ℓ} : {A : Type ℓ} {a : A} (xs ys : List A) → Mem a xs → Mem a (xs ++ ys)
Mem-append_left [] ys m = elim m [ ]
Mem-append_left (x ∷ xs) ys (here e) = here e
Mem-append_left (x ∷ xs) ys (there m) = there (Mem-append_left xs ys m)

pub Mem-append_right {ℓ} : {A : Type ℓ} {a : A} (xs ys : List A) → Mem a ys → Mem a (xs ++ ys)
Mem-append_right [] ys m = m
Mem-append_right (x ∷ xs) ys m = there (Mem-append_right xs ys m)

-- A list's facts in a row, for a predicate that computes to a product along the list.
infixr 2 ◌▸◌
pub ◌▸◌ {ℓ ℓ'} : {A : Type ℓ} {B : Type ℓ'} → A → B → A × B
a ▸ b = (a, b)
