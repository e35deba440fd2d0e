-- ===== src/Lessons/Pipelining.antt =====
-- lessons/go/pipelining-work/core/core.go: incrementing a batch of counters one command at a time or in a
-- pipeline, and summing them, against a store that is given by its commands.
pub mod Increments
use systems_trinkets.Golang.Decimal.{parse_int}
use systems_trinkets.Common.{
  suc, ◌+◌, ◌-◌, ◌%◌, ◌^◌, Option, none, some, List, [], ◌∷◌, ◌++◌, ltb, if◌then◌else◌, Result, ok,
  err, ℤ, pos, negsuc, Bytes,
}

-- `Store` over a state `S`: INCR of a key, a pipeline of INCRs, and MGET, where `none` is a missing key.
pub record Store (S : Type 0) : Type 0 where
  pub incr : Bytes → S → Result Bytes (Unit {0}) × S
  pub pipelined : List Bytes → S → Result Bytes (Unit {0}) × S
  pub mget : List Bytes → S → Result Bytes (List (Option Bytes))

pub data SumError : Type 0 where
  store_error not_a_number : Bytes → SumError

-- `+` on integers without a bound.
infixl 20 ◌+ℤ◌
unfoldable pub ◌+ℤ◌ : ℤ → ℤ → ℤ
pos a +ℤ pos b = pos (a + b)
pos a +ℤ negsuc b = if ltb b a then pos (a - suc b) else negsuc (b - a)
negsuc a +ℤ pos b = if ltb a b then pos (b - suc a) else negsuc (a - b)
negsuc a +ℤ negsuc b = negsuc (suc (a + b))

-- The int of 64 bits that a number wraps around to.
unfoldable pub to_int64 : ℤ → ℤ
to_int64 (pos n) = let r = n % 2 ^ 64 in if ltb r (2 ^ 63) then pos r else negsuc (2 ^ 64 - suc r)
to_int64 (negsuc n) =
    let r = n % 2 ^ 64 in if ltb r (2 ^ 63) then negsuc r else pos (2 ^ 64 - suc r)

-- The loop of `Sum` from a sum so far.
unfoldable pub sum_values : ℤ → List (Option Bytes) → Result SumError ℤ
unfolding ◌+ℤ◌ to_int64
sum_values total [] = ok total
sum_values total (none ∷ values) = sum_values total values
sum_values total (some text ∷ values) = elim (parse_int text) [
  | none ↦ err (not_a_number text)
  | some n ↦ sum_values (to_int64 (total +ℤ n)) values
]

-- The commands that the loop over the keys queues behind those that are there.
unfoldable pub queue_all : List Bytes → List Bytes → List Bytes
queue_all [] queued = queued
queue_all (key ∷ keys) queued = queue_all keys (queued ++ (key ∷ []))

module _ {S : Type 0} (store : Store S) where
  -- One round of the loop: an error ends it.
  unfoldable pub after_incr :
      Result Bytes (Unit {0}) × S → (S → Result Bytes (Unit {0}) × S) → Result Bytes (Unit {0}) × S
  after_incr (ok u, s) next = next s
  after_incr (err e, s) next = (err e, s)

  -- `IncrementSequential`
  unfoldable pub increment_sequential : List Bytes → S → Result Bytes (Unit {0}) × S
  unfolding after_incr
  increment_sequential [] s = (ok tt, s)
  increment_sequential (key ∷ keys) s =
      after_incr (store.incr key s) (λ s. increment_sequential keys s)

  -- `IncrementPipelined`
  unfoldable pub increment_pipelined : List Bytes → S → Result Bytes (Unit {0}) × S
  unfolding queue_all
  increment_pipelined keys s = store.pipelined (queue_all keys []) s

  unfoldable pub sum_reply : Result Bytes (List (Option Bytes)) → Result SumError ℤ
  unfolding sum_values
  sum_reply (err e) = err (store_error e)
  sum_reply (ok values) = sum_values (pos 0) values

  -- `Sum`
  unfoldable pub sum : List Bytes → S → Result SumError ℤ
  unfolding sum_reply
  sum keys s = sum_reply (store.mget keys s)
