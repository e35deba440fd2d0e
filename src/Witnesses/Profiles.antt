-- ===== src/Witnesses/Profiles.antt =====
-- The cache-aside read on a cache that is a list, before a table of one profile.
use systems_trinkets.Lessons.CacheAside.{Lookup, cached, missing, Source, Stores, read_profile}
use systems_trinkets.Lessons.CacheAside.Coherent.{
  Holdings, GetsEntry, QueriesRow, SetsEntry, Coherent, read_profile_lem,
}
use systems_trinkets.Common.{
  ◌≡◌, refl, sym, inl, inr, Option, none, some, List, [], ◌∷◌, arith, if◌then◌else◌, Bool-cases,
  Result, ok, err, ℤ, int_eq, pos, Bytes, codes, bytes_eq, bytes_eq_iff,
}

abbrev Entries : Type 0
Entries = List (Bytes × Bytes)

entry_of : Entries → Bytes → Option Bytes
entry_of [] k = none
entry_of ((j, v) ∷ es) k = if bytes_eq j k then some v else entry_of es k

abbrev lookup_of : Option Bytes → Lookup
lookup_of none = missing
lookup_of (some v) = cached v

abbrev row_of : ℤ → Option Bytes
row_of id = if int_eq id (pos 7) then some (codes "ada") else none

abbrev found_row : Option Bytes → Result Bytes Bytes
found_row none = err (codes "no rows")
found_row (some v) = ok v

abbrev list_stores : Stores Entries
list_stores = record {
  get = λ k s. (lookup_of (entry_of s k), s);
  query_name = λ id s. (found_row (row_of id), s);
  set = λ k v ttl s. (ok tt, (k, v) ∷ s);
}

abbrev list_holdings : Holdings Entries
list_holdings = record { entry = entry_of; row = λ s id. row_of id }

list-gets : GetsEntry list_stores list_holdings
list-gets k s = ((λ j v h. h, λ id. refl), λ v h. found (entry_of s k) h)
  where
    found : {v : Bytes} (o : Option Bytes) → lookup_of o ≡ cached v → o ≡ some v
    found none h = absurd (cc)
    found (some u) h = cc

list-queries : QueriesRow list_stores list_holdings
list-queries id s = ((λ j v h. h, λ id. refl), λ v h. found (row_of id) h)
  where
    found : {v : Bytes} (o : Option Bytes) → found_row o ≡ ok v → o ≡ some v
    found none h = absurd (cc)
    found (some u) h = cc

list-sets : SetsEntry list_stores list_holdings
unfolding entry_of
list-sets k v ttl s = (
  λ j u h. elim (Bool-cases (bytes_eq k j)) [
    | inl e ↦ let q : some v ≡ some u = (rw e at h) in inl (sym ((bytes_eq_iff k j).0 e), cc)
    | inr e ↦ inr (rw e at h)
  ],
  λ id. refl,
)

nothing_cached : Coherent list_stores list_holdings []
unfolding entry_of
nothing_cached id v i h = absurd (cc)

read_profile_lem_example :
    Coherent list_stores list_holdings (read_profile list_stores (pos 7) (pos 60) []).1
    × ((j : ℤ) → row_of j ≡ row_of j)
    × ((name : Bytes) (source : Source)
        → (read_profile list_stores (pos 7) (pos 60) []).0 ≡ ok (name, source)
        → row_of (pos 7) ≡ some name)
read_profile_lem_example =
    read_profile_lem list_stores list_holdings list-gets list-queries list-sets (pos 7) (pos 60) []
      (omega arith) nothing_cached
