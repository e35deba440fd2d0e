-- ===== src/Lessons/Pipelining/Increments.antt =====
-- Both ways to increment a batch of counters do what the batch says, and `Sum` adds up the counters.
use systems_trinkets.Common.{
  ℕ, zero, suc, ◌%◌, ◌^◌, ◌≡◌, refl, sym, ap, ◌∙◌, subst, inl, inr, Option, none, some, List, [],
  ◌∷◌, ◌++◌, map, append_assoc, append-nil, arith, ltb, if◌then◌else◌, Bool-cases, Result, ok, err,
  ℤ, pos, negsuc, Bytes, bytes_eq,
}
use systems_trinkets.Golang.Decimal.{InInt64, parse_int, itoa_int, parse_int-itoa_int}
use systems_trinkets.Lessons.Pipelining.{
  Store, SumError, store_error, ◌+ℤ◌, to_int64, sum_values, queue_all, after_incr,
  increment_sequential, increment_pipelined, sum_reply, sum,
}
use systems_trinkets.Probe.Counting.{occurrences}

-- The abstract counters: a number for each key.
abbrev pub Counters : Type 0
Counters = Bytes → ℤ

abbrev pub one_more : ℤ → ℤ
one_more (pos n) = pos (suc n)
one_more (negsuc zero) = pos 0
one_more (negsuc (suc n)) = negsuc n

abbrev pub raised : ℕ → ℤ → ℤ
raised zero z = z
raised (suc n) z = raised n (one_more z)

-- A batch raises each counter by the number of times that its key stands in it.
abbrev pub raised_by : List Bytes → Counters → Counters
raised_by keys c key = raised (occurrences key keys) (c key)

abbrev pub copies : ℕ → Bytes → List Bytes
copies zero key = []
copies (suc n) key = key ∷ copies n key

-- The sum of the counters as an int of 64 bits.
abbrev pub total : ℤ → List ℤ → ℤ
total acc [] = acc
total acc (z ∷ zs) = total (to_int64 (acc +ℤ z)) zs

-- What a reply to MGET says of a counter.
abbrev pub Shows : Option Bytes → ℤ → Type 0
Shows none z = z ≡ pos 0
Shows (some text) z = InInt64 z × (text ≡ itoa_int z)

abbrev pub AllShow : List (Option Bytes) → List ℤ → Type 0
AllShow [] [] = Unit
AllShow (v ∷ vs) (z ∷ zs) = Shows v z × AllShow vs zs
AllShow _ _ = ⊥

to_int64-InInt64 : (z : ℤ) → InInt64 (to_int64 z)
unfolding to_int64
to_int64-InInt64 (pos n) = elim (Bool-cases (ltb (n % 2 ^ 64) (2 ^ 63))) [
  | inl e ↦ rw e (ground arith)
  | inr e ↦ rw e (ground arith)
]
to_int64-InInt64 (negsuc n) = elim (Bool-cases (ltb (n % 2 ^ 64) (2 ^ 63))) [
  | inl e ↦ rw e (ground arith)
  | inr e ↦ rw e (ground arith)
]

add_nothing : (z : ℤ) → InInt64 z → to_int64 (z +ℤ pos 0) ≡ z
unfolding to_int64 ◌+ℤ◌
add_nothing (pos n) h = ground arith
add_nothing (negsuc n) h = ground arith

sum_values-total :
    (acc : ℤ) (values : List (Option Bytes)) (zs : List ℤ)
    → InInt64 acc
    → AllShow values zs
    → sum_values acc values ≡ ok (total acc zs)
unfolding sum_values
sum_values-total acc [] [] small h = refl
sum_values-total acc [] (z ∷ zs) small h = absurd h
sum_values-total acc (v ∷ vs) [] small h = absurd h
sum_values-total acc (none ∷ vs) (z ∷ zs) small (zero_value, h) =
    let same : to_int64 (acc +ℤ z) ≡ acc = rw zero_value (add_nothing acc small) in
    rw same (sum_values-total acc vs zs small h)
sum_values-total acc (some text ∷ vs) (z ∷ zs) small ((in_range, printed), h) =
    let read : parse_int text ≡ some z = rw printed (parse_int-itoa_int z in_range) in
    rw (sum_values, read)
      (sum_values-total (to_int64 (acc +ℤ z)) vs zs (to_int64-InInt64 (acc +ℤ z)) h)

queue_all_append : (keys queued : List Bytes) → queue_all keys queued ≡ queued ++ keys
unfolding queue_all
queue_all_append [] queued = sym (append-nil queued)
queue_all_append (key ∷ keys) queued =
    queue_all_append keys (queued ++ (key ∷ [])) ∙ append_assoc queued (key ∷ []) keys

module _ {S : Type 0} (store : Store S) (value : S → Counters) where
  -- The commands of a pipeline, each of which succeeded, in order.
  pub data Ran : List Bytes → S → S → Type 0 where
    none_left : {s : S} → Ran [] s s
    ran :
        {key : Bytes} {keys : List Bytes} {s s' t : S}
        → store.incr key s ≡ (ok tt, s')
        → Ran keys s' t
        → Ran (key ∷ keys) s t

  abbrev pub PipelineRan : List Bytes → S → Result Bytes (Unit {0}) × S → Type 0
  PipelineRan keys s (ok u, t) = Ran keys s t
  PipelineRan keys s (err e, t) = Unit

  abbrev pub AllShown : List Bytes → S → Result Bytes (List (Option Bytes)) → Type 0
  AllShown keys s (ok values) = AllShow values (map (value s) keys)
  AllShown keys s (err e) = Unit

  abbrev pub Follows : List Bytes → S → S → Type 0
  Follows keys s t = (k : Bytes) → value t k ≡ raised_by keys (value s) k

  abbrev pub Incremented : Bytes → S → S → Type 0
  Incremented key s t =
      (k : Bytes) → value t k ≡ (if bytes_eq key k then one_more (value s k) else value s k)

  -- What is documented of the commands: INCR adds one to a counter of that key and leaves the others; one
  -- that returns an error was carried out some number of times, as when replies were lost and it was sent
  -- again; a pipeline without an error ran each of its commands; MGET gives the
  -- counters in print, and none where a key is missing, which counts from 0.
  pub record Counts : Type 0 where
    pub incr_ok : (key : Bytes) (s t : S) → store.incr key s ≡ (ok tt, t) → Incremented key s t
    pub incr_err :
        (key e : Bytes) (s t : S)
        → store.incr key s ≡ (err e, t)
        → (n : ℕ) × Follows (copies n key) s t
    pub pipeline : (keys : List Bytes) (s : S) → PipelineRan keys s (store.pipelined keys s)
    pub shown : (keys : List Bytes) (s : S) → AllShown keys s (store.mget keys s)

  -- Without an error the whole batch was counted; with one, the keys before the command that failed, and
  -- its own key some number of times.
  abbrev pub Counted : List Bytes → S → Result Bytes (Unit {0}) × S → Type 0
  Counted keys s (ok u, t) = Follows keys s t
  Counted keys s (err e, t) =
      (before : List Bytes) × (key : Bytes) × (after : List Bytes) × (keys
        ≡ before ++ (key ∷ after))
      × (n : ℕ) × Follows (before ++ copies n key) s t

  abbrev pub CountedAll : List Bytes → S → Result Bytes (Unit {0}) × S → Type 0
  CountedAll keys s (ok u, t) = Follows keys s t
  CountedAll keys s (err e, t) = Unit

  abbrev pub Summed : List Bytes → S → Result SumError ℤ → Type 0
  Summed keys s (ok n) = n ≡ total (pos 0) (map (value s) keys)
  Summed keys s (err e) = (text : Bytes) × (e ≡ store_error text) × (store.mget keys s ≡ err text)

  module _ (counts : Counts) where
    one_first :
        (key : Bytes) (keys : List Bytes) (s s' t : S)
        → Incremented key s s'
        → Follows keys s' t
        → Follows (key ∷ keys) s t
    one_first key keys s s' t step h k = elim (Bool-cases (bytes_eq key k)) [
      | inl q ↦
          let more : value s' k ≡ one_more (value s k) = step k ∙ rw q refl in
          h k ∙ rw (q, more) refl
      | inr q ↦ let same : value s' k ≡ value s k = step k ∙ rw q refl in h k ∙ rw (q, same) refl
    ]

    Ran-Follows : (keys : List Bytes) (s t : S) → Ran keys s t → Follows keys s t
    Ran-Follows keys s t none_left = λ k. refl
    Ran-Follows (key ∷ keys) s t (ran {s' = s'} e r) =
        one_first key keys s s' t (counts.incr_ok key s s' e) (Ran-Follows keys s' t r)

    Counted-cons :
        (key : Bytes) (keys : List Bytes) (s s' : S) (r : Result Bytes (Unit {0}) × S)
        → store.incr key s ≡ (ok tt, s')
        → Counted keys s' r
        → Counted (key ∷ keys) s r
    Counted-cons key keys s s' (ok u, t) e h =
        one_first key keys s s' t (counts.incr_ok key s s' e) h
    Counted-cons key keys s s' (err x, t) e (before, k, after, p, n, f) = (
      key ∷ before,
      k,
      after,
      ap (λ ks. key ∷ ks) p,
      n,
      one_first key (before ++ copies n k) s s' t (counts.incr_ok key s s' e) f,
    )

    sequential-Counted :
        (keys : List Bytes) (s : S) → Counted keys s (increment_sequential store keys s)
    unfolding increment_sequential
    sequential-Counted [] s = λ k. refl
    sequential-Counted (key ∷ keys) s =
        go (store.incr key s).0 _ refl (λ s'. sequential-Counted keys s')
      where
        go :
            (r : Result Bytes (Unit {0})) (s' : S)
            → store.incr key s ≡ (r, s')
            → ((s : S) → Counted keys s (increment_sequential store keys s))
            → Counted
                (key ∷ keys)
                s
                (after_incr store (r, s') (λ s. increment_sequential store keys s))
        go (ok u) s' e later = unfold after_incr in Counted-cons key keys s s' _ e (later s')
        go (err x) s' e later =
            unfold after_incr in
            let (n, f) = counts.incr_err key x s s' e in ([], key, keys, refl, n, f)

    pipelined-Counted :
        (keys : List Bytes) (s : S) → CountedAll keys s (increment_pipelined store keys s)
    unfolding increment_pipelined
    pipelined-Counted keys s =
        let queued : store.pipelined keys s ≡ store.pipelined (queue_all keys []) s =
          ap (λ q. store.pipelined q s) (sym (queue_all_append keys [])) in
        subst (CountedAll keys s) queued (go (store.pipelined keys s) (counts.pipeline keys s))
      where
        go : (r : Result Bytes (Unit {0}) × S) → PipelineRan keys s r → CountedAll keys s r
        go (ok u, t) h = Ran-Follows keys s t h
        go (err e, t) h = tt

    sum-Summed : (keys : List Bytes) (s : S) → Summed keys s (sum store keys s)
    unfolding sum
    sum-Summed keys s = go (store.mget keys s) refl (counts.shown keys s)
      where
        go :
            (r : Result Bytes (List (Option Bytes)))
            → store.mget keys s ≡ r
            → AllShown keys s r
            → Summed keys s (sum_reply store r)
        go (err e) q h = unfold sum_reply in (e, refl, q)
        go (ok values) q h =
            unfold sum_reply in
            rw (sum_values-total (pos 0) values (map (value s) keys) (omega arith) h) refl

    pub increment_lem :
        (keys : List Bytes) (s : S)
        → Counted keys s (increment_sequential store keys s)
          × CountedAll keys s (increment_pipelined store keys s)
          × Summed keys s (sum store keys s)
    increment_lem keys s = (sequential-Counted keys s, pipelined-Counted keys s, sum-Summed keys s)
