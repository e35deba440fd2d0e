-- ===== src/Lessons/CacheAside/Coherent.antt =====
-- Reads through the cache give what the table holds.
use systems_trinkets.Golang.Decimal.{itoa_int, InInt64, parse_int, parse_int-itoa_int}
use systems_trinkets.Lessons.CacheAside.{
  Lookup, cached, missing, lookup_error, Stores, Source, profile_key, filled, queried, looked_up,
  read_profile,
}
use systems_trinkets.Common.{
  ◌≡◌, refl, sym, ap, ◌∙◌, ◌⊎◌, inl, inr, Option, some, [], ◌∷◌, ◌++◌, Result, ok, err, ℤ, Bytes,
  codes,
}

-- What a state says: the entries of the cache that have not expired, and the rows of the table.
pub record Holdings (S : Type 0) : Type 0 where
  pub entry : S → Bytes → Option Bytes
  pub row : S → ℤ → Option Bytes

append-cancel : (p a b : Bytes) → p ++ a ≡ p ++ b → a ≡ b
append-cancel [] a b h = h
append-cancel (c ∷ p) a b h = append-cancel p a b (cc)

-- Two ids have different keys.
pub profile_key-injective :
    (a b : ℤ) → InInt64 a → InInt64 b → profile_key a ≡ profile_key b → a ≡ b
unfolding profile_key
profile_key-injective a b ha hb h =
    let e : itoa_int a ≡ itoa_int b = append-cancel (codes "profile:") _ _ h in
    let q : some a ≡ some b =
      sym (parse_int-itoa_int a ha) ∙ ap parse_int e ∙ parse_int-itoa_int b hb in
    cc

module _ {S : Type 0} (stores : Stores S) (view : Holdings S) where
  -- No entry appears and no row changes; entries may expire.
  abbrev pub Expires : S → S → Type 0
  Expires s t =
      ((k v : Bytes) → view.entry t k ≡ some v → view.entry s k ≡ some v)
      × ((id : ℤ) → view.row t id ≡ view.row s id)

  -- `get` returns an entry that is there, a query the row that is there, and `set` writes one entry.
  abbrev pub GetsEntry : Type 0
  GetsEntry =
      (k : Bytes) (s : S)
      → Expires s (stores.get k s).1
        × ((v : Bytes) → (stores.get k s).0 ≡ cached v → view.entry s k ≡ some v)

  abbrev pub QueriesRow : Type 0
  QueriesRow =
      (id : ℤ) (s : S)
      → Expires s (stores.query_name id s).1
        × ((v : Bytes) → (stores.query_name id s).0 ≡ ok v → view.row s id ≡ some v)

  abbrev pub SetsEntry : Type 0
  SetsEntry =
      (k v : Bytes) (ttl : ℤ) (s : S)
      → ((j u : Bytes)
          → view.entry (stores.set k v ttl s).1 j ≡ some u
          → ((j ≡ k) × (u ≡ v)) ⊎ (view.entry s j ≡ some u))
        × ((id : ℤ) → view.row (stores.set k v ttl s).1 id ≡ view.row s id)

  -- Every entry of a profile is its row.
  abbrev pub Coherent : S → Type 0
  Coherent s =
      (id : ℤ) (v : Bytes)
      → InInt64 id
      → view.entry s (profile_key id) ≡ some v
      → view.row s id ≡ some v

  expired : (s t : S) → Expires s t → Coherent s → Coherent t
  expired s t (e, r) h id v i m = r id ∙ h id v i (e _ v m)

  module _ (gets : GetsEntry) (queries : QueriesRow) (sets : SetsEntry) where
    -- What a read promises of its result and of the state after it.
    abbrev pub Reads : ℤ → S → Result Bytes (Bytes × Source) × S → Type 0
    Reads id s (r, t) =
        Coherent t
        × ((j : ℤ) → view.row t j ≡ view.row s j)
        × ((name : Bytes) (source : Source) → r ≡ ok (name, source) → view.row s id ≡ some name)

    filled-Reads :
        (id ttl : ℤ) (name : Bytes) (s : S)
        → InInt64 id
        → Coherent s
        → view.row s id ≡ some name
        → Reads id s (filled name (stores.set (profile_key id) name ttl s))
    filled-Reads id ttl name s i h r = go (stores.set (profile_key id) name ttl s).0
      where
        t : S
        t = (stores.set (profile_key id) name ttl s).1

        coherent : Coherent t
        coherent j v k m = elim ((sets (profile_key id) name ttl s).0 _ v m) [
          | inr o ↦ (sets (profile_key id) name ttl s).1 j ∙ h j v k o
          | inl (same, u) ↦
              (sets (profile_key id) name ttl s).1 j
              ∙ ap (view.row s) (profile_key-injective j id k i same)
              ∙ r
              ∙ ap some (sym u)
        ]

        go : (q : Result Bytes (Unit {0})) → Reads id s (filled name (q, t))
        go (ok u) =
            unfold filled in
            (
              coherent,
              (sets (profile_key id) name ttl s).1,
              λ n src e. let q : name ≡ n = cc in r ∙ ap some q,
            )
        go (err e) =
            unfold filled in
            (coherent, (sets (profile_key id) name ttl s).1, λ n src e. absurd (cc))

    -- A read from the table and the cache as the lookup left it.
    queried-Reads :
        (id ttl : ℤ) (s : S)
        → InInt64 id
        → Coherent s
        → Reads id s (queried stores id ttl (stores.query_name id s))
    queried-Reads id ttl s i h = go (stores.query_name id s).0 refl
      where
        t : S
        t = (stores.query_name id s).1

        after : Coherent t
        after = expired s t (queries id s).0 h

        go :
            (q : Result Bytes Bytes)
            → (stores.query_name id s).0 ≡ q
            → Reads id s (queried stores id ttl (q, t))
        go (err e) q = unfold queried in (after, (queries id s).0.1, λ n src x. absurd (cc))
        go (ok name) q =
            unfold queried in
            let row : view.row s id ≡ some name = (queries id s).1 name q in
            let (c, r, n) = filled-Reads id ttl name t i after ((queries id s).0.1 id ∙ row) in
            (c, λ j. r j ∙ (queries id s).0.1 j, λ m src x. sym ((queries id s).0.1 id) ∙ n m src x)

    read_profile-Reads :
        (id ttl : ℤ) (s : S) → InInt64 id → Coherent s → Reads id s (read_profile stores id ttl s)
    unfolding read_profile
    read_profile-Reads id ttl s i h = go (stores.get (profile_key id) s).0 refl
      where
        t : S
        t = (stores.get (profile_key id) s).1

        same : Expires s t
        same = (gets (profile_key id) s).0

        go :
            (l : Lookup)
            → (stores.get (profile_key id) s).0 ≡ l
            → Reads id s (looked_up stores id ttl (l, t))
        go (lookup_error e) q =
            unfold looked_up in (expired s t same h, same.1, λ n src x. absurd (cc))
        go (cached name) q =
            unfold looked_up in
            let row : view.row s id ≡ some name =
              h id name i ((gets (profile_key id) s).1 name q) in
            (expired s t same h, same.1, λ n src x. let e : name ≡ n = cc in row ∙ ap some e)
        go missing q =
            unfold looked_up in
            let (c, r, n) = queried-Reads id ttl t i (expired s t same h) in
            (c, λ j. r j ∙ same.1 j, λ m src x. sym (same.1 id) ∙ n m src x)

    -- `ReadProfile` keeps the cache coherent, writes no row, and the name that it returns, from the cache or
    -- from the table, is the one in the table. The conditions are those of the two services: a lookup
    -- or a query returns what is there, a set writes one entry, and beside that entries only expire.
    pub read_profile_lem :
        (id ttl : ℤ) (s : S)
        → InInt64 id
        → Coherent s
        → Coherent (read_profile stores id ttl s).1
          × ((j : ℤ) → view.row (read_profile stores id ttl s).1 j ≡ view.row s j)
          × ((name : Bytes) (source : Source)
              → (read_profile stores id ttl s).0 ≡ ok (name, source)
              → view.row s id ≡ some name)
    read_profile_lem id ttl s i h = read_profile-Reads id ttl s i h
