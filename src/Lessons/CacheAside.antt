-- ===== src/Lessons/CacheAside.antt =====
-- lessons/go/cache-aside/core/core.go: reading a profile through a cache, over a cache and a table that
-- are given by their operations.
pub mod Coherent
use systems_trinkets.Golang.Decimal.{itoa_int}
use systems_trinkets.Common.{◌++◌, Result, ok, err, ℤ, Bytes, codes}

-- The reply to `cache.Get`: the value, `redis.Nil`, or another error.
pub data Lookup : Type 0 where
  cached : Bytes → Lookup
  missing : Lookup
  lookup_error : Bytes → Lookup

-- The calls on a state `S`, which is the cache, the table and whatever else their replies depend on. The
-- time to live is in the unit of the caller.
pub record Stores (S : Type 0) : Type 0 where
  pub get : Bytes → S → Lookup × S
  pub query_name : ℤ → S → Result Bytes Bytes × S
  pub set : Bytes → Bytes → ℤ → S → Result Bytes (Unit {0}) × S

-- The source that is reported beside the name.
pub data Source : Type 0 where
  from_cache from_postgres : Source

-- `ProfileKey`
unfoldable pub profile_key : ℤ → Bytes
profile_key id = codes "profile:" ++ itoa_int id

unfoldable pub filled :
    {S : Type 0} → Bytes → Result Bytes (Unit {0}) × S → Result Bytes (Bytes × Source) × S
filled name (ok u, s) = (ok (name, from_postgres), s)
filled name (err e, s) = (err e, s)

module _ {S : Type 0} (stores : Stores S) where
  unfoldable pub queried : ℤ → ℤ → Result Bytes Bytes × S → Result Bytes (Bytes × Source) × S
  unfolding filled profile_key
  queried id ttl (ok name, s) = filled name (stores.set (profile_key id) name ttl s)
  queried id ttl (err e, s) = (err e, s)

  unfoldable pub looked_up : ℤ → ℤ → Lookup × S → Result Bytes (Bytes × Source) × S
  unfolding queried
  looked_up id ttl (cached name, s) = (ok (name, from_cache), s)
  looked_up id ttl (lookup_error e, s) = (err e, s)
  looked_up id ttl (missing, s) = queried id ttl (stores.query_name id s)

  -- `ReadProfile`
  unfoldable pub read_profile : ℤ → ℤ → S → Result Bytes (Bytes × Source) × S
  unfolding looked_up profile_key
  read_profile id ttl s = looked_up id ttl (stores.get (profile_key id) s)
