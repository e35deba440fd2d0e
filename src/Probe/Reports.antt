-- ===== src/Probe/Reports.antt =====
-- What the checks of internal/lab/docker/probe/checks.go print of the replies that they are given.
use systems_trinkets.Common.{
  ℕ, zero, suc, ◌%◌, Option, none, some, List, [], ◌∷◌, ◌++◌, map, reverse, if◌then◌else◌, Result,
  ok, err, ℤ, is_negative, int_le, pos, Bytes, codes, bytes_eq, cut, split, is_space, wide_space2,
  wide_space3, space_length,
}
use systems_trinkets.Golang.Decimal.{itoa, itoa_int, parse_int}
use systems_trinkets.Probeout.{Line, ok_line, denied_line}
use systems_trinkets.Probe.{Usage, bad_user_id}
use systems_trinkets.Probe.Arguments.{octal4}
use systems_trinkets.Probe.FileMode.{file_mode}
use systems_trinkets.Probe.Machine.{FileStatus, Identity, path_error}

-- `strings.Join`
unfoldable pub join : Bytes → List Bytes → Bytes
join sep [] = []
join sep (s ∷ []) = s
join sep (s ∷ t ∷ ts) = s ++ (sep ++ join sep (t ∷ ts))

-- The number of bytes of the white space that a text ends with, whose last byte is given first.
space_length_back : Bytes → ℕ
space_length_back [] = 0
space_length_back (c ∷ []) = if is_space c then 1 else 0
space_length_back (d ∷ c ∷ []) = if is_space d then 1 else if wide_space2 c d then 2 else 0
space_length_back (e ∷ d ∷ c ∷ s) =
    if is_space e then 1 else if wide_space2 d e then 2 else if wide_space3 c d e then 3 else 0

-- The text behind its white space; `k` bytes of one are still to be left out.
trim_front : (Bytes → ℕ) → ℕ → Bytes → Bytes
trim_front len k [] = []
trim_front len (suc k) (c ∷ s) = trim_front len k s
trim_front len zero (c ∷ s) = elim (len (c ∷ s)) [ zero ↦ c ∷ s | suc k ↦ trim_front len k s ]

-- `strings.TrimSpace`
unfoldable pub trim_space : Bytes → Bytes
unfolding trim_front space_length space_length_back
trim_space s = reverse (trim_front space_length_back 0 (reverse (trim_front space_length 0 s)))

-- `sort.Ints`
unfoldable pub insert_int : ℤ → List ℤ → List ℤ
insert_int n [] = n ∷ []
insert_int n (k ∷ ks) = if int_le n k then n ∷ k ∷ ks else k ∷ insert_int n ks

unfoldable pub sort_ints : List ℤ → List ℤ
unfolding insert_int
sort_ints [] = []
sort_ints (n ∷ ns) = insert_int n (sort_ints ns)

-- The i-th argument; `parse_flags` has counted them.
abbrev pub argument : List Bytes → ℕ → Bytes
argument [] i = []
argument (a ∷ args) zero = a
argument (a ∷ args) (suc i) = argument args i

-- The value that a line `key: value` of the file gives a key: the last one counts.
unfoldable pub status_value : Bytes → List Bytes → Option Bytes
unfolding trim_space
status_value key [] = none
status_value key (l ∷ ls) =
    let later = status_value key ls in
    let (k, rest) = cut b':' l in
    elim later [
      | some v ↦ some v
      | none ↦ elim rest [
        | none ↦ none
        | some v ↦ if bytes_eq k key then some (trim_space v) else none
      ]
    ]

-- One of `statusFields` with its line name.
unfoldable pub status_line : List Bytes → Bytes × Bytes → Line
unfolding status_value
status_line lines (field, name) = elim (status_value field lines) [
  | some v ↦ ok_line name v
  | none ↦ denied_line name (codes "no " ++ (field ++ codes " field in /proc/self/status"))
]

abbrev pub status_fields : List (Bytes × Bytes)
status_fields =
    (codes "CapEff", codes "cap-eff")
    ∷ (codes "NoNewPrivs", codes "no-new-privs")
    ∷ (codes "Seccomp", codes "seccomp")
    ∷ []

unfoldable pub status_lines : Result Bytes Bytes → List Line
unfolding status_line
status_lines (err e) = map (λ f. denied_line f.1 e) status_fields
status_lines (ok text) = map (status_line (split b'\n' text)) status_fields

unfoldable pub identity_text : Identity → List ℤ → Bytes
unfolding join
identity_text i groups =
    codes "uid="
    ++ (itoa_int i.uid
        ++ (codes " gid="
            ++ (itoa_int i.gid
                ++ (codes " euid="
                    ++ (itoa_int i.euid
                        ++ (codes " egid="
                            ++ (itoa_int i.egid
                                ++ (codes " groups="
                                    ++ join (codes ",") (map itoa_int groups)))))))))

unfoldable pub identity_line : Identity → Result Bytes (List ℤ) → Line
unfolding identity_text
identity_line i (err e) = denied_line (codes "identity") e
identity_line i (ok groups) = ok_line (codes "identity") (identity_text i groups)

-- The entries of /proc that are numbers, in order.
unfoldable pub numbers_of : List Bytes → List ℤ
numbers_of [] = []
numbers_of (e ∷ es) = elim (parse_int e) [ none ↦ numbers_of es | some n ↦ n ∷ numbers_of es ]

unfoldable pub pids_line : Result Bytes (List Bytes) → Line
unfolding numbers_of sort_ints join
pids_line (err e) = denied_line (codes "pids") e
pids_line (ok es) =
    ok_line (codes "pids") (join (codes " ") (map itoa_int (sort_ints (numbers_of es))))

unfoldable pub interfaces_line : Result Bytes (List Bytes) → Line
unfolding join
interfaces_line (err e) = denied_line (codes "interfaces") e
interfaces_line (ok names) = ok_line (codes "interfaces") (join (codes " ") names)

unfoldable pub stat_line : Bytes → Result Bytes FileStatus → Line
unfolding path_error file_mode octal4
stat_line path (err e) = denied_line (codes "stat") (path_error (codes "lstat") path e)
stat_line path (ok st) = ok_line (codes "stat") (
    path
    ++ (codes " mode="
        ++ (file_mode st.mode
            ++ (codes " perm="
                ++ (octal4 (st.mode % 4096)
                    ++ (codes " uid=" ++ (itoa st.uid ++ (codes " gid=" ++ itoa st.gid))))))))

-- The uid argument of `cmdSetuid`: 0 where there is none.
unfoldable pub uid_argument : List Bytes → Result Usage ℤ
uid_argument [] = ok (pos 0)
uid_argument (a ∷ rest) = elim (parse_int a) [
  | none ↦ err (bad_user_id a)
  | some n ↦ if is_negative n then err (bad_user_id a) else ok n
]

-- The first error of a write and the close after it.
unfoldable pub first_error :
    Result Bytes (Unit {0}) → Result Bytes (Unit {0}) → Result Bytes (Unit {0})
first_error (err e) r = err e
first_error (ok u) r = r

abbrev pub two_words : Bytes → Bytes → Bytes
two_words a b = a ++ (codes " " ++ b)

abbrev pub mount_target : Bytes
mount_target = codes "/dev/shm"
