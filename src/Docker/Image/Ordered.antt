-- ===== src/Docker/Image/Ordered.antt =====
-- `sortedDirs`: the owned directories, every parent before its children.
use mathlib.Core.List.{Perm}
use systems_trinkets.Golang.Sorting.{
  bytes_le, bytes_le_antisym, bytes_le-append, sort_by-perm, sort_by-IsSorted, IsSorted,
}
use systems_trinkets.Docker.Image.{OwnedDir, FixtureImage, sorted_dirs}
use systems_trinkets.Common.{
  ◌≡◌, ap, true, List, [], ◌∷◌, ◌++◌, arith, Bytes, length, length-append, All, All_imp,
}

-- `p` is a directory above `q`.
abbrev pub IsAncestor : Bytes → Bytes → Type 0
IsAncestor p q = (rest : Bytes) × (q ≡ p ++ (b'/' ∷ rest))

-- No directory stands before one of its ancestors.
abbrev pub ParentsFirst : List OwnedDir → Type 0
ParentsFirst [] = Unit
ParentsFirst (d ∷ ds) = All (λ e. ¬ (IsAncestor e.path d.path)) ds × ParentsFirst ds

not_below : (p q : Bytes) → bytes_le q p ≡ true → ¬ (IsAncestor p q)
not_below p q h (rest, e) =
    let le : bytes_le p q ≡ true = rw e (bytes_le-append p (b'/' ∷ rest)) in
    let same : q ≡ p = bytes_le_antisym q p h le in
    absurd (omega (arith, ap length same, ap length e, length-append p (b'/' ∷ rest)))

IsSorted-ParentsFirst : (ds : List OwnedDir) → IsSorted (λ d. d.path) ds → ParentsFirst ds
IsSorted-ParentsFirst [] h = tt
IsSorted-ParentsFirst (d ∷ ds) (h, hs) =
    (All_imp (λ e le. not_below e.path d.path le) ds h, IsSorted-ParentsFirst ds hs)

-- The Dockerfile's directories are the image's, in an order in which no directory stands before one
-- of its ancestors, and their paths ascend.
pub sorted_dirs_lem :
    (img : FixtureImage)
    → Perm (sorted_dirs img) img.dirs
      × IsSorted (λ d. d.path) (sorted_dirs img)
      × ParentsFirst (sorted_dirs img)
unfolding sorted_dirs
sorted_dirs_lem img =
    let sorted = sort_by-IsSorted (λ d. d.path) img.dirs in
    (sort_by-perm (λ d. d.path) img.dirs, sorted, IsSorted-ParentsFirst _ sorted)
