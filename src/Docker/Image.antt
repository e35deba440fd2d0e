-- ===== src/Docker/Image.antt =====
-- internal/lab/docker/image.go: the description of a fixture image, its Dockerfile and its build
-- context, and the reader of the daemon's build output. `writeTar` is modelled up to its guard: the
-- tar writer (archive/tar) is not. An error is a value in place of its wording.
pub mod Ordered
pub mod Context
pub mod Paths
use systems_trinkets.Golang.Decimal.{itoa, itoa_int, parse_int}
use systems_trinkets.Golang.Paths.{clean, is_abs, slash}
use systems_trinkets.Golang.Utf8.{valid_string}
use systems_trinkets.Golang.Sorting.{sort_by}
use systems_trinkets.Docker.Names.{is_alnum, lesson_re, numeric_id_re, parsed_id_valid, valid_id}
use systems_trinkets.Docker.Spec.{default_fixture_user, report}
use systems_trinkets.Common.{
  ℕ, ◌+◌, ◌-◌, ◌/◌, ◌%◌, Bool, true, false, not, ◌&&◌, ◌||◌, Option, none, some, List, [], ◌∷◌,
  ◌++◌, map, ltb, ◌==◌, if◌then◌else◌, Result, ok, err, ℤ, Bytes, codes, bytes_eq, is_empty,
  contains, cut_prefix, has_prefix, cut, cut_suffix, has_infix, length, any, all, gather,
}

pub record OwnedDir : Type 0 where
  pub path : Bytes
  pub uid : ℤ
  pub gid : ℤ

pub record FixtureImage : Type 0 where
  pub lesson : Bytes
  pub tag : Bytes
  pub package_path : Bytes
  pub user : Bytes
  pub dirs : List OwnedDir

abbrev pub fixture_binary : Bytes
fixture_binary = codes "/fixture"

abbrev pub whiteout_prefix : Bytes
whiteout_prefix = codes ".wh."

-- `FixtureImage.user`
abbrev pub user_of : FixtureImage → Bytes
user_of img = if is_empty img.user then default_fixture_user else img.user

abbrev pub owned_path_char : ℕ → Bool
owned_path_char c =
    is_alnum c
    || (c == b'/' || (c == b'.' || (c == b'_' || (c == b'@' || (c == b'+' || c == b'-')))))

pub data PathError : Type 0 where
  empty_path relative_path root_path bad_character unclean_path binary_path whiteout_path :
      PathError

-- The error, or `none`.
unfoldable pub validate_owned_path : Bytes → Option PathError
validate_owned_path p =
    if is_empty p
    then some empty_path
    else if not (is_abs p)
    then some relative_path
    else if bytes_eq p (codes "/")
    then some root_path
    else if not (all owned_path_char p)
    then some bad_character
    else if not (bytes_eq (clean p) p)
    then some unclean_path
    else if bytes_eq p fixture_binary || has_prefix (fixture_binary ++ codes "/") p
    then some binary_path
    else if has_infix (codes "/" ++ whiteout_prefix) p
    then some whiteout_path
    else none

pub data ImageError : Type 0 where
  bad_lesson bad_tag bad_package bad_user user_out_of_range : ImageError
  bad_dir : Bytes → PathError → ImageError
  owner_out_of_range listed_twice : Bytes → ImageError

-- `userRE`: `^[0-9]+:[0-9]+$`
user_re : Bytes → Bool
user_re u =
    let (uid, gid) = cut b':' u in
    numeric_id_re uid && elim gid [ none ↦ false | some g ↦ numeric_id_re g ]

-- Both ids are in range.
user_in_range : Bytes → Bool
user_in_range u =
    let (uid, gid) = cut b':' u in
    parsed_id_valid (parse_int uid)
    && parsed_id_valid (parse_int (elim gid [ none ↦ [] | some g ↦ g ]))

-- The tag is trinkets-<lesson>-<name>:dev with a valid name.
tag_valid : Bytes → Bytes → Bool
tag_valid lesson tag = elim (cut_prefix (codes "trinkets-" ++ (lesson ++ codes "-")) tag) [
  | none ↦ false
  | some rest ↦ elim (cut_suffix (codes ":dev") rest) [ none ↦ false | some name ↦ lesson_re name ]
]

-- the loop over `img.Dirs`
unfoldable pub validate_dirs : List Bytes → List OwnedDir → Option ImageError
validate_dirs seen [] = none
validate_dirs seen (d ∷ ds) =
    let rest = validate_dirs (d.path ∷ seen) ds in
    elim (validate_owned_path d.path) [
      | some e ↦ some (bad_dir d.path e)
      | none ↦
          if not (valid_id d.uid) || not (valid_id d.gid)
          then some (owner_out_of_range d.path)
          else if contains seen d.path
          then some (listed_twice d.path)
          else rest
    ]

-- `FixtureImage.validate`: the error, or `none`.
unfoldable pub validate : FixtureImage → Option ImageError
unfolding user_re user_in_range tag_valid
validate img =
    if not (lesson_re img.lesson)
    then some bad_lesson
    else if not (tag_valid img.lesson img.tag)
    then some bad_tag
    else if is_empty img.package_path || has_prefix (codes "-") img.package_path
    then some bad_package
    else if not (user_re (user_of img))
    then some bad_user
    else if not (user_in_range (user_of img))
    then some user_out_of_range
    else validate_dirs [] img.dirs

hex_digit : ℕ → ℕ
hex_digit n = if ltb n 10 then b'0' + n else b'a' + (n - 10)

-- One byte in a JSON string. The harness quotes ASCII only.
json_byte : ℕ → Bytes
unfolding hex_digit
json_byte c =
    if c == b'"' || c == b'\\'
    then b'\\' ∷ c ∷ []
    else if c == b'\n'
    then codes "\\n"
    else if c == b'\r'
    then codes "\\r"
    else if c == b'\t'
    then codes "\\t"
    else if c == 8
    then codes "\\b"
    else if c == 12
    then codes "\\f"
    else if ltb c 0x20
    then codes "\\u00" ++ (hex_digit (c / 16) ∷ hex_digit (c % 16) ∷ [])
    else c ∷ []

unfoldable pub json_string : Bytes → Bytes
unfolding json_byte
json_string s = b'"' ∷ (gather json_byte s ++ codes "\"")

unfoldable pub owned_src : ℕ → Bytes
owned_src i = codes "d/" ++ itoa i

unfoldable pub sorted_dirs : FixtureImage → List OwnedDir
sorted_dirs img = sort_by (λ d. d.path) img.dirs

abbrev pub probe_marker : Bytes
probe_marker = codes "TRINKETS_PROBE"

-- One COPY line of an owned directory.
unfoldable pub copy_line : ℕ → OwnedDir → Bytes
copy_line i d =
    codes "COPY --chown="
    ++ (itoa_int d.uid
        ++ (codes ":"
            ++ (itoa_int d.gid
                ++ (codes " ["
                    ++ (json_string (owned_src i)
                        ++ (codes ", " ++ (json_string d.path ++ codes "]\n")))))))

unfoldable pub copy_lines : ℕ → List OwnedDir → Bytes
copy_lines i [] = []
copy_lines i (d ∷ ds) = copy_line i d ++ copy_lines (i + 1) ds

unfoldable pub fixture_dockerfile : FixtureImage → Bytes
fixture_dockerfile img =
    codes "FROM scratch\n"
    ++ (codes "ENV "
        ++ (probe_marker
            ++ (codes "=1\n"
                ++ (codes "COPY ["
                    ++ (json_string (codes "fixture")
                        ++ (codes ", "
                            ++ (json_string fixture_binary
                                ++ (codes "]\n"
                                    ++ (copy_lines 0 (sorted_dirs img)
                                        ++ (codes "USER "
                                            ++ (user_of img
                                                ++ (codes "\n"
                                                    ++ (codes "ENTRYPOINT ["
                                                        ++ (json_string fixture_binary
                                                            ++ codes "]\n"))))))))))))))

pub record ContextFile : Type 0 where
  pub name : Bytes
  pub dir : Bool
  pub mode : ℕ
  pub contents : Bytes

abbrev pub context_dir : Bytes → ContextFile
context_dir name = record { name = name; dir = true; mode = 0o755; contents = [] }

-- the loop over `img.Dirs`
unfoldable pub dir_entries : ℕ → List OwnedDir → List ContextFile
dir_entries i [] = []
dir_entries i (d ∷ ds) = context_dir (owned_src i) ∷ dir_entries (i + 1) ds

unfoldable pub context_files : FixtureImage → Bytes → List ContextFile
context_files img binary =
    record {
      name = codes "Dockerfile";
      dir = false;
      mode = 0o644;
      contents = fixture_dockerfile img;
    }
    ∷ record { name = codes "fixture"; dir = false; mode = 0o755; contents = binary }
    ∷ ((if ltb 0 (length img.dirs) then context_dir (codes "d") ∷ [] else [])
        ++ dir_entries 0 img.dirs)

unfoldable pub fixture_context : FixtureImage → Bytes → Result ImageError (List ContextFile)
fixture_context img binary = elim (validate img) [
  | some e ↦ err e
  | none ↦ ok (context_files img binary)
]

-- `contextNamesClean` of invariants.go: the names that break the rule, with the case they fall under.
pub data NameViolation : Type 0 where
  empty_name unclean_name bad_bytes name_twice : Bytes → NameViolation

unfoldable pub name_violation : List Bytes → Bytes → List NameViolation
name_violation seen n =
    if is_empty n || bytes_eq n (codes ".")
    then empty_name n ∷ []
    else if is_abs n
        || (not (bytes_eq (clean n) n) || (bytes_eq n (codes "..") || has_prefix (codes "../") n))
    then unclean_name n ∷ []
    else if any (λ c. c == b'\\' || c == 0) n || not (valid_string n)
    then bad_bytes n ∷ []
    else report (contains seen n) (name_twice n)

unfoldable pub names_clean : List Bytes → List ContextFile → List NameViolation
names_clean seen [] = []
names_clean seen (f ∷ fs) = name_violation seen f.name ++ names_clean (f.name ∷ seen) fs

unfoldable pub context_names_clean : List ContextFile → List NameViolation
context_names_clean files = names_clean [] files

-- The entry that `writeTar` writes for a file: its name in the archive, whether it is a directory,
-- its mode and its contents.
abbrev pub tar_entry : ContextFile → ContextFile
tar_entry f = if f.dir then record f { name = f.name ++ codes "/" } else f

-- `writeTar`, over an archive writer that does not fail.
unfoldable pub write_tar : List ContextFile → Result (List NameViolation) (List ContextFile)
write_tar files = elim (context_names_clean files) [
  | [] ↦ ok (map tar_entry files)
  | e ∷ es ↦ err (e ∷ es)
]

pub data TarError : Type 0 where
  invalid_image : ImageError → TarError
  unsafe_context : List NameViolation → TarError

unfoldable pub fixture_context_tar : FixtureImage → Bytes → Result TarError (List ContextFile)
fixture_context_tar img binary = elim (fixture_context img binary) [
  | err e ↦ err (invalid_image e)
  | ok files ↦ elim (write_tar files) [ err es ↦ err (unsafe_context es) | ok t ↦ ok t ]
]
