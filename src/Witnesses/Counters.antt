-- ===== src/Witnesses/Counters.antt =====
-- The property of the pipelining lesson on a small store.
use systems_trinkets.Common.{
  ℕ, suc, ◌≡◌, refl, Option, none, some, List, [], ◌∷◌, map, leb, ◌==◌, if◌then◌else◌, Result, ok,
  err, pos, Bytes, codes, bytes_eq, all,
}
use systems_trinkets.Golang.Decimal.{max_int64, itoa, digits_value, parse_int}
use systems_trinkets.Lessons.Pipelining.{Store, increment_sequential, sum}
use systems_trinkets.Lessons.Pipelining.Increments.{Counters}

abbrev Numbers : Type 0
Numbers = Bytes → ℕ

-- A key of another type refuses to count.
abbrev refused : Bytes
refused = codes "list"

incr_of : Bytes → Numbers → Result Bytes (Unit {0}) × Numbers
unfolding bytes_eq
incr_of key s =
    if bytes_eq key refused
    then (err (codes "WRONGTYPE"), s)
    else (ok tt, λ k. if bytes_eq key k then suc (s k) else s k)

abbrev first_of : Result Bytes (Unit {0}) → Result Bytes (Unit {0}) → Result Bytes (Unit {0})
first_of (ok u) r = r
first_of (err e) r = err e

run_all : List Bytes → Numbers → Result Bytes (Unit {0}) × Numbers
unfolding incr_of
run_all [] s = (ok tt, s)
run_all (key ∷ keys) s =
    let (r, s') = incr_of key s in let (r', t) = run_all keys s' in (first_of r r', t)

shown_as : ℕ → Option Bytes
shown_as n = if n == 0 then none else some (itoa n)

mget_of : List Bytes → Numbers → Result Bytes (List (Option Bytes))
unfolding shown_as
mget_of keys s =
    if all (λ k. leb (s k) max_int64) keys
    then ok (map (λ k. shown_as (s k)) keys)
    else err (codes "too large")

small_store : Store Numbers
unfolding incr_of run_all mget_of
small_store = record { incr = incr_of; pipelined = run_all; mget = mget_of }

abbrev counters : Numbers → Counters
counters s k = pos (s k)

abbrev batch : List Bytes
batch = codes "a" ∷ codes "b" ∷ codes "a" ∷ []

abbrev empty_store : Numbers
empty_store k = 0

three_counted :
    sum small_store
      (codes "a" ∷ codes "b" ∷ [])
      (increment_sequential small_store batch empty_store).1
    ≡ ok (pos 3)
unfolding sum small_store increment_sequential parse_int itoa digits_value
three_counted = refl
