-- ===== src/Probe/Counting.antt =====
-- The request counter: what it counts of the requests, and what the mux or the counts keep from it.
use systems_trinkets.Probe.{
  Counter, count_of, increment, hit, uncounted, mux_path, counts_path, serve_count, serve_all,
}
use systems_trinkets.Common.{
  ℕ, suc, ◌+◌, ◌≡◌, refl, sym, ap, ◌∙◌, ◌≢◌, ◌↔◌, ◌⊎◌, inl, inr, true, false, List, [], ◌∷◌, arith,
  if◌then◌else◌, Bool-cases, Bytes, codes, bytes_eq, bytes_eq_iff, bytes_eq_refl, length,
}

abbrev pub occurrences : Bytes → List Bytes → ℕ
occurrences p [] = 0
occurrences p (q ∷ qs) = if bytes_eq q p then suc (occurrences p qs) else occurrences p qs

-- The requests that are counted.
abbrev pub counted : List Bytes → List Bytes
counted [] = []
counted (p ∷ ps) = if uncounted p then counted ps else p ∷ counted ps

increment_lem :
    (m : List (Bytes × ℕ)) (p q : Bytes)
    → count_of (increment m p) q ≡ (if bytes_eq p q then suc (count_of m q) else count_of m q)
unfolding increment count_of
increment_lem [] p q = refl
increment_lem ((r, n) ∷ m) p q = elim (Bool-cases (bytes_eq r p)) [
  | inl e ↦ let same : r ≡ p = (bytes_eq_iff r p).0 e in rw same (ground (arith, bytes_eq_refl p))
  | inr e ↦ elim (Bool-cases (bytes_eq r q)) [
    | inl f ↦ let same : r ≡ q = (bytes_eq_iff r q).0 f in rw e (ground (arith, differs p q r e f))
    | inr f ↦ ground (arith, increment_lem m p q)
  ]
]
  where
    differs : (p q r : Bytes) → bytes_eq r p ≡ false → bytes_eq r q ≡ true → bytes_eq p q ≡ false
    differs p q r e f = elim (Bool-cases (bytes_eq p q)) [
      | inr g ↦ g
      | inl g ↦
          let s : r ≡ q = (bytes_eq_iff r q).0 f in
          let t : p ≡ q = (bytes_eq_iff p q).0 g in
          let u : bytes_eq r p ≡ true = (bytes_eq_iff r p).1 (s ∙ sym t) in absurd (cc)
    ]

-- The requests of one path among those that are counted.
occurrences-cons :
    (p : Bytes) (ps : List Bytes) (path : Bytes)
    → occurrences path (counted (p ∷ ps))
      ≡ (if uncounted p then 0 else if bytes_eq p path then 1 else 0)
        + occurrences path (counted ps)
occurrences-cons p ps path = elim (Bool-cases (uncounted p)) [
  | inl e ↦ rw e (ground arith)
  | inr e ↦ elim (Bool-cases (bytes_eq p path)) [
    | inl f ↦ rw (e, f) (ground arith)
    | inr f ↦ rw (e, f) (ground arith)
  ]
]

length-counted-cons :
    (p : Bytes) (ps : List Bytes)
    → length (counted (p ∷ ps)) ≡ (if uncounted p then 0 else 1) + length (counted ps)
length-counted-cons p ps = elim (Bool-cases (uncounted p)) [
  | inl e ↦ rw e (ground arith)
  | inr e ↦ rw e (ground arith)
]

serve_count_paths :
    (p : Bytes) (c : Counter) (path : Bytes)
    → count_of (serve_count p c).paths path
      ≡ (if uncounted p then 0 else if bytes_eq p path then 1 else 0) + count_of c.paths path
unfolding serve_count hit
serve_count_paths p c path = elim (Bool-cases (uncounted p)) [
  | inl e ↦ rw e (ground arith)
  | inr e ↦ elim (Bool-cases (bytes_eq p path)) [
    | inl f ↦ rw e (increment_lem c.paths p path ∙ rw f (ground arith))
    | inr f ↦ rw e (increment_lem c.paths p path ∙ rw f (ground arith))
  ]
]

serve_count_total :
    (p : Bytes) (c : Counter) → (serve_count p c).total ≡ (if uncounted p then 0 else 1) + c.total
unfolding serve_count hit
serve_count_total p c = elim (Bool-cases (uncounted p)) [
  | inl e ↦ rw e (ground arith)
  | inr e ↦ rw e (ground arith)
]

-- The paths that are not counted: that of the counts, and each that the mux redirects to another.
uncounted_lem :
    (path : Bytes)
    → (path ≢ codes "/__counts" → mux_path path ≡ path → uncounted path ≡ false)
      × ((path ≡ codes "/__counts") ⊎ (mux_path path ≢ path) → uncounted path ≡ true)
unfolding uncounted
uncounted_lem path =
    let same = bytes_eq_iff (mux_path path) path in
    let own = bytes_eq_iff path counts_path in
    (
      λ ne e. rw (same.1 e, differs own ne) refl,
      λ c. elim c [ inl e ↦ rw (own.1 e) (ground arith) | inr ne ↦ rw (differs same ne) refl ],
    )
  where
    differs : {a b : Bytes} → (bytes_eq a b ≡ true) ↔ (a ≡ b) → a ≢ b → bytes_eq a b ≡ false
    differs {a} {b} h ne = elim (Bool-cases (bytes_eq a b)) [
      | inl t ↦ absurd (ne (h.0 t))
      | inr f ↦ f
    ]

occurrences-counted :
    (path : Bytes) (ps : List Bytes)
    → occurrences path (counted ps) ≡ (if uncounted path then 0 else occurrences path ps)
occurrences-counted path [] = elim (Bool-cases (uncounted path)) [
  | inl e ↦ rw e refl
  | inr e ↦ rw e refl
]
occurrences-counted path (p ∷ ps) =
    let later = occurrences-counted path ps in
    elim (Bool-cases (bytes_eq p path)) [
      | inl e ↦
          let same : p ≡ path = (bytes_eq_iff p path).0 e in
          elim (Bool-cases (uncounted path)) [
            | inl u ↦ rw (same, u) (rw u at later)
            | inr u ↦ rw (same, u, bytes_eq_refl path) (ap suc (rw u at later))
          ]
      | inr e ↦ occurrences-cons p ps path ∙ rw e (ground (arith, later))
    ]

serve_all-counted :
    (requests : List Bytes) (c : Counter)
    → ((path : Bytes)
        → count_of (serve_all requests c).paths path
          ≡ count_of c.paths path + occurrences path (counted requests))
      × ((serve_all requests c).total ≡ c.total + length (counted requests))
unfolding serve_all
serve_all-counted [] c = (λ path. ground arith, ground arith)
serve_all-counted (p ∷ ps) c =
    let (paths, total) = serve_all-counted ps (serve_count p c) in
    (
      λ path.
          let a = paths path in
          let b = serve_count_paths p c path in
          let d = occurrences-cons p ps path in a ∙ omega arith,
      let b = serve_count_total p c in let d = length-counted-cons p ps in total ∙ omega arith,
    )

-- After any sequence of requests, the counter of a path has grown by the number of requests for it,
-- where the path is not that of the counts and the mux does not redirect it to a cleaned path; of any
-- other path it is what it was. The total has grown by the number of the requests that are counted.
pub serve_all_lem :
    (requests : List Bytes) (c : Counter)
    → ((path : Bytes)
        → path ≢ codes "/__counts"
        → mux_path path ≡ path
        → count_of (serve_all requests c).paths path
          ≡ count_of c.paths path + occurrences path requests)
      × ((path : Bytes)
          → (path ≡ codes "/__counts") ⊎ (mux_path path ≢ path)
          → count_of (serve_all requests c).paths path ≡ count_of c.paths path)
      × ((serve_all requests c).total ≡ c.total + length (counted requests))
serve_all_lem requests c =
    let (paths, total) = serve_all-counted requests c in
    (
      λ path ne e.
          let a = paths path in
          let b = occurrences-counted path requests in
          let u = (uncounted_lem path).0 ne e in a ∙ rw (b, u) refl,
      λ path o.
          let a = paths path in
          let b = occurrences-counted path requests in
          let u = (uncounted_lem path).1 o in a ∙ rw (b, u) (ground arith),
      total,
    )
