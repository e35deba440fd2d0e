-- ===== src/Docker/Leaks.antt =====
-- What a run of engine calls does not call to remove: the containers, volumes and images that were
-- created and whose removal was not called for afterwards.
use systems_trinkets.Common.{
  arith, there, inr, inl, ◌⊎◌, Bool-cases, ◌≡◌, refl, subst, Bool, true, false, ◌||◌, some, List,
  [], ◌∷◌, if◌then◌else◌, Bytes, bytes_eq, bytes_eq_refl, Mem, here,
}
use systems_trinkets.Docker.Names.{StringMap}
use systems_trinkets.Docker.Engine.{Request}
use systems_trinkets.Docker.Client.{
  Event, create, remove, create_volume, remove_volume, build_image, remove_image,
}

pub data Key : Type 0 where
  container_key volume_key image_key : Bytes → Key

abbrev pub key_eq : Key → Key → Bool
key_eq (container_key a) (container_key b) = bytes_eq a b
key_eq (volume_key a) (volume_key b) = bytes_eq a b
key_eq (image_key a) (image_key b) = bytes_eq a b
key_eq _ _ = false

pub key_eq_refl : (k : Key) → key_eq k k ≡ true
key_eq_refl (container_key a) = bytes_eq_refl a
key_eq_refl (volume_key a) = bytes_eq_refl a
key_eq_refl (image_key a) = bytes_eq_refl a

abbrev pub is_removed : List Key → Key → Bool
is_removed [] k = false
is_removed (r ∷ rs) k = key_eq r k || is_removed rs k

abbrev pub unless_removed : List Key → Key → List Key → List Key
unless_removed later k rest = if is_removed later k then rest else k ∷ rest

-- What was created without a call for its removal afterwards. The events are the last one first; `later`
-- holds what the later events call to remove. A call counts whether or not the engine carries it out.
unfoldable pub leaked : List Key → List Event → List Key
leaked later [] = []
leaked later (create req (some id) ∷ es) = unless_removed later (container_key id) (leaked later es)
leaked later (remove id ∷ es) = leaked (container_key id ∷ later) es
leaked later (create_volume name l true ∷ es) =
    unless_removed later (volume_key name) (leaked later es)
leaked later (remove_volume name ∷ es) = leaked (volume_key name ∷ later) es
leaked later (build_image tag ∷ es) = unless_removed later (image_key tag) (leaked later es)
leaked later (remove_image tag ∷ es) = leaked (image_key tag ∷ later) es
leaked later (e ∷ es) = leaked later es

-- No more lacks a call for its removal after the first events than after the second, whatever is
-- called to be removed later.
pub record Below (log' log : List Event) : Type 0 where
  pub within : (later : List Key) (k : Key) → Mem k (leaked later log') → Mem k (leaked later log)

pub Below-refl : (log : List Event) → Below log log
Below-refl log = record { within = λ later k m. m }

pub Below-trans : {a b c : List Event} → Below a b → Below b c → Below a c
Below-trans h g = record { within = λ later k m. g.within later k (h.within later k m) }

-- The second events left what the first did.
abbrev pub Quiet : List Event → List Event → Type 0
Quiet log log' = (later : List Key) → leaked later log' ≡ leaked later log

pub Below-Quiet : (log log' : List Event) → Quiet log log' → Below log' log
Below-Quiet log log' h = record { within = λ later k m. subst (Mem k) (h later) m }

-- Nothing is left after events that leave no more than no event does.
pub leaked_none : {log : List Event} (later : List Key) → Below log [] → leaked later log ≡ []
unfolding leaked
leaked_none {log} later h = empty (leaked later log) (λ k m. elim (h.within later k m) [ ])
  where
    empty : (ks : List Key) → ((k : Key) → Mem k ks → ⊥) → ks ≡ []
    empty [] h = refl
    empty (k ∷ ks) h = absurd (h k (here refl))

-- The more is removed later, the less is left.
abbrev Covers : List Key → List Key → Type 0
Covers later' later = (k : Key) → is_removed later k ≡ true → is_removed later' k ≡ true

Covers-cons :
    (j : Key) (later' later : List Key) → Covers later' later → Covers (j ∷ later') (j ∷ later)
Covers-cons j later' later h k e = elim (Bool-cases (key_eq j k)) [
  | inl f ↦ rw f refl
  | inr f ↦ rw f (h k (ground arith))
]

unless_removed_mono :
    (later' later : List Key) (j k : Key) (rest' rest : List Key)
    → Covers later' later
    → (Mem k rest' → Mem k rest)
    → Mem k (unless_removed later' j rest')
    → Mem k (unless_removed later j rest)
unless_removed_mono later' later j k rest' rest h g m = elim (Bool-cases (is_removed later j)) [
  | inl e ↦ rw e (g (rw (h j e) at m))
  | inr e ↦ rw e (kept (Bool-cases (is_removed later' j)))
]
  where
    kept : (is_removed later' j ≡ true) ⊎ (is_removed later' j ≡ false) → Mem k (j ∷ rest)
    kept (inl f) = there (g (rw f at m))
    kept (inr f) = cons (rw f at m)
      where
        cons : Mem k (j ∷ rest') → Mem k (j ∷ rest)
        cons (here q) = here q
        cons (there q) = there (g q)

leaked_mono :
    (log : List Event) (later' later : List Key) (k : Key)
    → Covers later' later
    → Mem k (leaked later' log)
    → Mem k (leaked later log)
unfolding leaked
leaked_mono [] later' later k h m = m
leaked_mono (create req (some id) ∷ es) later' later k h m =
    unless_removed_mono later' later (container_key id) k _ _ h (leaked_mono es later' later k h) m
leaked_mono (remove id ∷ es) later' later k h m =
    leaked_mono es _ _ k (Covers-cons (container_key id) later' later h) m
leaked_mono (create_volume name l true ∷ es) later' later k h m =
    unless_removed_mono later' later (volume_key name) k _ _ h (leaked_mono es later' later k h) m
leaked_mono (remove_volume name ∷ es) later' later k h m =
    leaked_mono es _ _ k (Covers-cons (volume_key name) later' later h) m
leaked_mono (build_image tag ∷ es) later' later k h m =
    unless_removed_mono later' later (image_key tag) k _ _ h (leaked_mono es later' later k h) m
leaked_mono (remove_image tag ∷ es) later' later k h m =
    leaked_mono es _ _ k (Covers-cons (image_key tag) later' later h) m
leaked_mono (e ∷ es) later' later k h m = leaked_mono es later' later k h m

-- What is removed at once is not left.
unless_removed_self :
    (later : List Key) (k : Key) (rest : List Key) → unless_removed (k ∷ later) k rest ≡ rest
unless_removed_self later k rest = rw (key_eq_refl k) refl

cons-Covers : (later : List Key) (j : Key) → Covers (j ∷ later) later
cons-Covers later j k e = elim (Bool-cases (key_eq j k)) [ inl f ↦ rw f refl | inr f ↦ rw f e ]

dropped :
    (log : List Event) (later : List Key) (j k : Key)
    → Mem k (unless_removed (j ∷ later) j (leaked (j ∷ later) log))
    → Mem k (leaked later log)
dropped log later j k m =
    leaked_mono log (j ∷ later) later k (cons-Covers later j)
      (rw (unless_removed_self later j (leaked (j ∷ later) log)) at m)

-- Each of the three kinds, created and removed again.
pub container_undone :
    (id : Bytes) (req : Request) (log : List Event)
    → Below (remove id ∷ create req (some id) ∷ log) log
unfolding leaked
container_undone id req log = record {
  within = λ later k m. dropped log later (container_key id) k m;
}

pub volume_undone :
    (name : Bytes) (l : StringMap) (log : List Event)
    → Below (remove_volume name ∷ create_volume name l true ∷ log) log
unfolding leaked
volume_undone name l log = record { within = λ later k m. dropped log later (volume_key name) k m }

pub image_undone :
    (tag : Bytes) (log : List Event) → Below (remove_image tag ∷ build_image tag ∷ log) log
unfolding leaked
image_undone tag log = record { within = λ later k m. dropped log later (image_key tag) k m }

-- A removal after both.
pub Below-remove :
    {a b : List Event} (id : Bytes) → Below a b → Below (remove id ∷ a) (remove id ∷ b)
unfolding leaked
Below-remove id h = record { within = λ later k m. h.within (container_key id ∷ later) k m }

pub Below-remove_volume :
    {a b : List Event} (name : Bytes)
    → Below a b
    → Below (remove_volume name ∷ a) (remove_volume name ∷ b)
unfolding leaked
Below-remove_volume name h = record { within = λ later k m. h.within (volume_key name ∷ later) k m }

pub Below-remove_image :
    {a b : List Event} (tag : Bytes)
    → Below a b
    → Below (remove_image tag ∷ a) (remove_image tag ∷ b)
unfolding leaked
Below-remove_image tag h = record { within = λ later k m. h.within (image_key tag ∷ later) k m }

-- An image that was built may be left.
pub Below-build : (tag : Bytes) (log : List Event) → Below log (build_image tag ∷ log)
unfolding leaked
Below-build tag log = record {
  within = λ later k m. kept later k m (Bool-cases (is_removed later (image_key tag)));
}
  where
    kept :
        (later : List Key) (k : Key)
        → Mem k (leaked later log)
        → (is_removed later (image_key tag) ≡ true) ⊎ (is_removed later (image_key tag) ≡ false)
        → Mem k (unless_removed later (image_key tag) (leaked later log))
    kept later k m (inl e) = rw e m
    kept later k m (inr e) = rw e (there m)
