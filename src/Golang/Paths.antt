-- ===== src/Golang/Paths.antt =====
-- `path.Clean`, by the rules of its documentation applied to the segments between slashes.
use systems_trinkets.Common.{
  ℕ, ◌≡◌, refl, ap, ◌∙◌, ◌≢◌, Bool, false, ◌||◌, List, [], ◌∷◌, ◌++◌, arith, ◌==◌, if◌then◌else◌,
  Bytes, codes, bytes_eq, is_empty, Lacks, split, split-Lacks, split_at_sep,
}

abbrev pub slash : ℕ
slash = b'/'

-- One segment onto the segments kept so far, the last one first.
clean_segment : Bool → List Bytes → Bytes → List Bytes
clean_segment rooted kept seg =
    if is_empty seg || bytes_eq seg (codes ".")
    then kept
    else if bytes_eq seg (codes "..")
    then elim kept [
      | [] ↦ if rooted then [] else codes ".." ∷ []
      | top ∷ below ↦ if bytes_eq top (codes "..") then codes ".." ∷ (top ∷ below) else below
    ]
    else seg ∷ kept

clean_segments : Bool → List Bytes → List Bytes → List Bytes
clean_segments rooted kept [] = kept
clean_segments rooted kept (s ∷ ss) = clean_segments rooted (clean_segment rooted kept s) ss

-- The segments in the order of the path, joined by slashes; the last one is given first.
join_kept : List Bytes → Bytes → Bytes
join_kept [] tail = tail
join_kept (s ∷ ss) tail = join_kept ss (s ++ (slash ∷ tail))

join_segments : List Bytes → Bytes
unfolding join_kept
join_segments [] = []
join_segments (s ∷ ss) = join_kept ss s

abbrev pub is_abs : Bytes → Bool
is_abs [] = false
is_abs (c ∷ s) = c == slash

unfoldable pub clean : Bytes → Bytes
unfolding clean_segment clean_segments join_segments
clean p =
    let rooted = is_abs p in
    let body = join_segments (clean_segments rooted [] (split slash p)) in
    if rooted then slash ∷ body else if is_empty body then codes "." else body

clean_tests :
    (clean (codes "/a/../b//c/.") ≡ codes "/b/c")
    × (clean (codes "../a/..") ≡ codes "..")
    × (clean [] ≡ codes ".")
    × (clean (codes "/..") ≡ codes "/")
    × (clean (codes "a/b/../..") ≡ codes ".")
    × (clean (codes "a/../../b") ≡ codes "../b")
    × (clean (codes "/var/run/docker.sock") ≡ codes "/var/run/docker.sock")
unfolding clean split bytes_eq
clean_tests = (refl, refl, refl, refl, refl, refl, refl)

ordinary_segment :
    (kept : List Bytes) (x : ℕ) (t : Bytes)
    → x ≢ b'.'
    → clean_segment false kept (x ∷ t) ≡ (x ∷ t) ∷ kept
unfolding clean_segment bytes_eq
ordinary_segment kept x t h = ground arith

-- A relative path of two segments that start with no dot is clean.
pub clean_pair :
    (c x : ℕ) (t : Bytes)
    → c ≢ b'.'
    → c ≢ slash
    → x ≢ b'.'
    → Lacks slash (x ∷ t)
    → clean (c ∷ slash ∷ x ∷ t) ≡ c ∷ slash ∷ x ∷ t
unfolding clean clean_segments join_segments
clean_pair c x t hc hs hx lacks =
    let two : split slash (c ∷ slash ∷ x ∷ t) ≡ (c ∷ []) ∷ (x ∷ t) ∷ [] =
      split_at_sep slash (c ∷ []) (x ∷ t) (hs, tt)
      ∙ ap (λ r. (c ∷ []) ∷ r) (split-Lacks slash (x ∷ t) lacks) in
    let relative : (c == slash) ≡ false = ground arith in
    rw two (
      rw relative
        (rw (ordinary_segment [] c [] hc) (rw (ordinary_segment ((c ∷ []) ∷ []) x t hx) refl)))
