-- ===== src/Probe/FileMode.antt =====
-- `fileMode` of internal/lab/docker/probe/checks.go: the type and permission bits of a file, as ls shows them.
pub mod Shown
use systems_trinkets.Common.{
  ℕ, zero, suc, ◌-◌, ◌/◌, ◌%◌, ◌^◌, Bool, [], ◌∷◌, ◌==◌, if◌then◌else◌, Bytes, codes,
}

-- `mode & (1 << k)` is not 0.
abbrev pub has_bit : ℕ → ℕ → Bool
has_bit mode k = mode / 2 ^ k % 2 == 1

-- The switch on `mode & S_IFMT`, whose constants are multiples of 2^12.
unfoldable pub type_char : ℕ → ℕ
type_char mode =
    let t = mode / 4096 % 16 in
    if t == 12
    then b's'
    else if t == 4
    then b'd'
    else if t == 10
    then b'l'
    else if t == 1
    then b'p'
    else if t == 2
    then b'c'
    else if t == 6
    then b'b'
    else b'-'

-- The loop over "rwxrwxrwx", of which `k` letters are left.
unfoldable pub permission_letters : ℕ → ℕ → Bytes → Bytes
permission_letters mode k [] = []
permission_letters mode k (c ∷ cs) =
    (if has_bit mode (k - 1) then c else b'-') ∷ permission_letters mode (k - 1) cs

abbrev pub set : Bytes → ℕ → ℕ → Bytes
set [] i v = []
set (x ∷ xs) zero v = v ∷ xs
set (x ∷ xs) (suc i) v = x ∷ set xs i v

-- One round of the loop over setuid, setgid and sticky: the bit, its slot and its letter.
unfoldable pub special_bit : ℕ → ℕ → ℕ → ℕ → Bytes → Bytes
special_bit mode bit slot on b =
    if has_bit mode bit
    then set b slot (if has_bit mode (8 - slot) then on else on - (b'a' - b'A'))
    else b

unfoldable pub permission_text : ℕ → Bytes
unfolding permission_letters special_bit
permission_text mode = special_bit mode 9 8 b't' (
    special_bit mode 10 5 b's'
      (special_bit mode 11 2 b's' (permission_letters mode 9 (codes "rwxrwxrwx"))))

-- `fileMode`
unfoldable pub file_mode : ℕ → Bytes
unfolding type_char permission_text
file_mode mode = type_char mode ∷ permission_text mode
