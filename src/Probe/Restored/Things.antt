-- ===== src/Probe/Restored/Things.antt =====
-- What the probe's commands can leave open, and the actions that close it again.
use systems_trinkets.Common.{
  ℕ, ◌≡◌, refl, ◌≢◌, ◌⊎◌, inl, inr, Bool, true, false, Option, none, some, List, [], ◌∷◌, arith,
  ◌==◌, if◌then◌else◌, ==_iff, ==_refl, ℤ, Bytes, bytes_eq,
}
use systems_trinkets.Probe.Machine.{
  Action, temp_created, temp_removed, mounted, unmounted, child_started, child_killed, child_reaped,
  listening, listener_closed, accepted, connected, connection_closed, umask_set, renamed, uid_set,
  namespace_entered, keyring_created,
}

-- What a command can open and has to close again.
pub data Thing : Type 0 where
  temp_at mount_at connection listener : Bytes → Thing
  child : ℕ → Thing

abbrev pub shuts : Bool → Bool → Option Bool
shuts same value = if same then some value else none

-- What an action says of a thing: opened, closed, or nothing.
unfoldable pub effect : Thing → Action → Option Bool
effect (temp_at p) (temp_created q) = shuts (bytes_eq p q) true
effect (temp_at p) (temp_removed q) = shuts (bytes_eq p q) false
effect (mount_at p) (mounted q) = shuts (bytes_eq p q) true
effect (mount_at p) (unmounted q) = shuts (bytes_eq p q) false
effect (connection c) (connected d) = shuts (bytes_eq c d) true
effect (connection c) (accepted d) = shuts (bytes_eq c d) true
effect (connection c) (connection_closed d) = shuts (bytes_eq c d) false
effect (listener p) (listening q) = shuts (bytes_eq p q) true
effect (listener p) (listener_closed q) = shuts (bytes_eq p q) false
effect (child n) (child_started k) = shuts (n == k) true
effect (child n) (child_reaped k) = shuts (n == k) false
effect t a = none

-- A thing is open if the last action about it opened it; the last action stands first.
unfoldable pub is_open : Thing → List Action → Bool
is_open t [] = false
is_open t (a ∷ log) = elim (effect t a) [ some b ↦ b | none ↦ is_open t log ]

-- Whatever is open after the first actions was open after the second.
pub record Restored (log' log : List Action) : Type 0 where
  pub was_open : (t : Thing) → is_open t log' ≡ true → is_open t log ≡ true

pub Restored-refl : (log : List Action) → Restored log log
Restored-refl log = record { was_open = λ t h. h }

pub Restored-trans : {a b c : List Action} → Restored a b → Restored b c → Restored a c
Restored-trans h k = record { was_open = λ t e. k.was_open t (h.was_open t e) }

-- The second action closes what the first one opens, and opens nothing.
pub record Brackets (start end : Action) : Type 0 where
  pub closes : (t : Thing) → effect t start ≡ some true → effect t end ≡ some false
  pub opens_nothing : (t : Thing) → effect t end ≢ some true

-- What is open behind an action, by what the action says of it.
pub is_open-cons :
    (t : Thing) (a : Action) (log : List Action)
    → is_open t (a ∷ log) ≡ true
    → (effect t a ≡ some true) ⊎ ((effect t a ≡ none) × (is_open t log ≡ true))
unfolding is_open
is_open-cons t a log e = go (effect t a) refl e
  where
    go :
        (o : Option Bool)
        → effect t a ≡ o
        → (elim o [ some b ↦ b | none ↦ is_open t log ]) ≡ true
        → (effect t a ≡ some true) ⊎ ((effect t a ≡ none) × (is_open t log ≡ true))
    go none p h = inr (p, h)
    go (some true) p h = inl p
    go (some false) p h = absurd (cc)

pub Restored-Brackets :
    {start end : Action} {log' log : List Action}
    → Brackets start end
    → Restored log' (start ∷ log)
    → Restored (end ∷ log') log
Restored-Brackets {start} {end} {log'} {log} b h = record {
  was_open = λ t e. elim (is_open-cons t end log' e) [
    | inl opened ↦ absurd (b.opens_nothing t opened)
    | inr (silent, left) ↦ elim (is_open-cons t start log (h.was_open t left)) [
      | inr (q, before) ↦ before
      | inl opened ↦ absurd (cc (b.closes t opened))
    ]
  ];
}

pub temp-Brackets : (p : Bytes) → Brackets (temp_created p) (temp_removed p)
unfolding effect
temp-Brackets p = record { closes = shut; opens_nothing = not_open }
  where
    shut :
        (t : Thing) → effect t (temp_created p) ≡ some true → effect t (temp_removed p) ≡ some false
    shut (temp_at q) h = ground arith
    shut t h = absurd (cc)

    not_open : (t : Thing) → effect t (temp_removed p) ≢ some true
    not_open (temp_at q) = ground arith
    not_open t = cc

pub mount-Brackets : (p : Bytes) → Brackets (mounted p) (unmounted p)
unfolding effect
mount-Brackets p = record { closes = shut; opens_nothing = not_open }
  where
    shut : (t : Thing) → effect t (mounted p) ≡ some true → effect t (unmounted p) ≡ some false
    shut (mount_at q) h = ground arith
    shut t h = absurd (cc)

    not_open : (t : Thing) → effect t (unmounted p) ≢ some true
    not_open (mount_at q) = ground arith
    not_open t = cc

pub listener-Brackets : (p : Bytes) → Brackets (listening p) (listener_closed p)
unfolding effect
listener-Brackets p = record { closes = shut; opens_nothing = not_open }
  where
    shut :
        (t : Thing) → effect t (listening p) ≡ some true → effect t (listener_closed p) ≡ some false
    shut (listener q) h = ground arith
    shut t h = absurd (cc)

    not_open : (t : Thing) → effect t (listener_closed p) ≢ some true
    not_open (listener q) = ground arith
    not_open t = cc

connection_opens_nothing : (c : Bytes) (t : Thing) → effect t (connection_closed c) ≢ some true
unfolding effect
connection_opens_nothing c (connection q) = ground arith
connection_opens_nothing c t = cc

pub dial-Brackets : (c : Bytes) → Brackets (connected c) (connection_closed c)
unfolding effect
dial-Brackets c = record { closes = shut; opens_nothing = connection_opens_nothing c }
  where
    shut :
        (t : Thing)
        → effect t (connected c) ≡ some true
        → effect t (connection_closed c) ≡ some false
    shut (connection q) h = ground arith
    shut t h = absurd (cc)

pub accept-Brackets : (c : Bytes) → Brackets (accepted c) (connection_closed c)
unfolding effect
accept-Brackets c = record { closes = shut; opens_nothing = connection_opens_nothing c }
  where
    shut :
        (t : Thing)
        → effect t (accepted c) ≡ some true
        → effect t (connection_closed c) ≡ some false
    shut (connection q) h = ground arith
    shut t h = absurd (cc)

pub reaped_opens_nothing : (pid : ℕ) (t : Thing) → effect t (child_reaped pid) ≢ some true
unfolding effect
reaped_opens_nothing pid (child n) = ground arith
reaped_opens_nothing pid t = cc

pub reaped_self : (pid : ℕ) → effect (child pid) (child_reaped pid) ≡ some false
unfolding effect
reaped_self pid = rw (==_refl pid) refl

pub started_self : (pid : ℕ) (t : Thing) → effect t (child_started pid) ≡ some true → t ≡ child pid
unfolding effect
started_self pid (child n) h = ground (arith, ==_iff n pid)
started_self pid t h = absurd (cc)

-- An action about nothing that can be open.
pub Restored-silent :
    (a : Action) (log : List Action) → ((t : Thing) → effect t a ≡ none) → Restored (a ∷ log) log
Restored-silent a log h = record {
  was_open = λ t e. elim (is_open-cons t a log e) [
    | inl opened ↦ absurd (cc (h t))
    | inr (q, before) ↦ before
  ];
}

pub namespace_silent : (t : Thing) → effect t namespace_entered ≡ none
unfolding effect
namespace_silent (child n) = refl
namespace_silent t = refl

pub keyring_silent : (t : Thing) → effect t keyring_created ≡ none
unfolding effect
keyring_silent (child n) = refl
keyring_silent t = refl

pub uid_silent : (uid : ℤ) (t : Thing) → effect t (uid_set uid) ≡ none
unfolding effect
uid_silent uid (child n) = refl
uid_silent uid t = refl

pub killed_silent : (pid : ℕ) (t : Thing) → effect t (child_killed pid) ≡ none
unfolding effect
killed_silent pid (child n) = refl
killed_silent pid t = refl

pub umask_silent : (mask : ℕ) (t : Thing) → effect t (umask_set mask) ≡ none
unfolding effect
umask_silent mask (child n) = refl
umask_silent mask t = refl

pub renamed_silent : (a b : Bytes) (t : Thing) → effect t (renamed a b) ≡ none
unfolding effect
renamed_silent a b (child n) = refl
renamed_silent a b t = refl

opened_last :
    (t : Thing) (x : Action) (log : List Action)
    → effect t x ≡ some true
    → is_open t (x ∷ log) ≡ true
unfolding is_open
opened_last t x log e = rw (e, is_open) refl

still_open :
    (t : Thing) (x : Action) (log : List Action)
    → effect t x ≡ none
    → is_open t log ≡ true
    → is_open t (x ∷ log) ≡ true
unfolding is_open
still_open t x log e h = rw (e, is_open) h

-- The same action on top of both.
pub Restored-cons : {a b : List Action} (x : Action) → Restored a b → Restored (x ∷ a) (x ∷ b)
Restored-cons {a} {b} x h = record {
  was_open = λ t e. elim (is_open-cons t x a e) [
    | inl opened ↦ opened_last t x b opened
    | inr (silent, before) ↦ still_open t x b silent (h.was_open t before)
  ];
}
