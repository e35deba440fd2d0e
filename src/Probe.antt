-- ===== src/Probe.antt =====
-- internal/lab/docker/probe: the fixture binary that runs inside the containers. `main.go`'s reporter,
-- command table and `run`; the owner argument of checks.go; the request counter of net.go.
pub mod Exits
pub mod Counting
pub mod Machine
pub mod Arguments
pub mod FileMode
pub mod Reports
pub mod Checks
pub mod Process
pub mod Network
pub mod Restored
pub mod Functions
pub mod Guard
pub mod Surveys
pub mod Survey
use Prim.Native.String.{String}
use systems_trinkets.Golang.Decimal.{parse_int}
use systems_trinkets.Golang.Paths.{clean, is_abs}
use systems_trinkets.Probeout.{Line, ok_line, denied_line, to_text}
use systems_trinkets.Common.{
  ℕ, suc, Bool, true, false, not, ◌&&◌, ◌||◌, Option, none, some, List, [], ◌∷◌, ◌++◌, ltb,
  if◌then◌else◌, Result, ok, err, ℤ, pos, negsuc, Bytes, codes, bytes_eq, cut, has_suffix,
}

-- `parseOwner`'s errors: the text at fault.
pub data OwnerError : Type 0 where
  not_an_owner bad_uid bad_gid : Bytes → OwnerError

-- A `usageError`: what its message says.
pub data Usage : Type 0 where
  flag_undefined flag_syntax : Bytes → Usage
  flag_help : Usage
  argument_count : ℕ → ℕ → ℕ → Usage
  owner_usage : OwnerError → Usage
  bad_mode bad_user_id bad_network bad_bytes bad_fork_count : Bytes → Usage
  negative_count : ℤ → Usage

-- What a command function returns: nothing, a `usageError`, `flag.ErrHelp`, or another error.
pub data CommandError : Type 0 where
  usage_error : Usage → CommandError
  help_requested : CommandError
  other_error : Bytes → CommandError

-- What a command did: the lines that it printed through the reporter, its error, and the world after it.
abbrev pub Outcome : Type 0 → Type 0
Outcome W = (List Line × Option CommandError) × W

-- A command. Its function is given the arguments after its name and the world, which holds all that it
-- can read or change.
pub record Command (W : Type 0) : Type 0 where
  pub name : Bytes
  pub survey : Bool
  pub mutates : Bool
  pub fn : List Bytes → W → Outcome W

abbrev pub Functions : Type 0 → Type 0
Functions W = Bytes → List Bytes → W → Outcome W

module _ {W : Type 0} (fns : Functions W) where
  abbrev pub plain : String → Command W
  plain n = record { name = codes n; survey = false; mutates = false; fn = fns (codes n) }

  abbrev pub mutating : String → Command W
  mutating n = record { name = codes n; survey = false; mutates = true; fn = fns (codes n) }

  -- The table of `init`, where `fns` gives each name its function.
  unfoldable pub command_table : List (Command W)
  command_table =
      plain "id"
      ∷ plain "status"
      ∷ plain "pids"
      ∷ plain "interfaces"
      ∷ mutating "write"
      ∷ mutating "setuid"
      ∷ mutating "chown"
      ∷ mutating "chmod"
      ∷ mutating "unlink"
      ∷ mutating "replace"
      ∷ plain "stat"
      ∷ mutating "mount"
      ∷ mutating "unshare-user"
      ∷ mutating "keyctl"
      ∷ plain "cgroup"
      ∷ record (mutating "battery") { survey = true }
      ∷ plain "dial"
      ∷ plain "peer-echo"
      ∷ plain "http-count"
      ∷ plain "http-get"
      ∷ plain "forward"
      ∷ plain "sleep"
      ∷ mutating "alloc"
      ∷ mutating "fork"
      ∷ mutating "initdir"
      ∷ plain "noop"
      ∷ []

-- What `run` writes to its two outputs, besides the probe lines.
pub data Notice : Type 0 where
  usage_text : Notice
  refusing : Bytes → Notice
  command_usage : Bytes → Option Usage → Notice
  unknown_command : Bytes → Notice

pub record Execution (W : Type 0) : Type 0 where
  pub status : ℕ
  pub lines : List Line
  pub help : Bool
  pub notices : List Notice
  pub world : W

-- `reporter.denied` after the lines.
unfoldable pub denied_count : List Line → ℕ
denied_count [] = 0
denied_count (l ∷ ls) = if not l.ok then suc (denied_count ls) else denied_count ls

unfoldable pub exit_status : Bool → List Line → ℕ
unfolding denied_count
exit_status survey ls = if ltb 0 (denied_count ls) && not survey then 1 else 0

module _ {W : Type 0} where
  -- The end of `run` for the command that was found, on what its function did.
  unfoldable pub finish : Command W → Outcome W → Execution W
  unfolding exit_status
  finish c ((ls, none), w) = record {
    status = exit_status c.survey ls;
    lines = ls;
    help = false;
    notices = [];
    world = w;
  }
  finish c ((ls, some (usage_error m)), w) = record {
    status = 2;
    lines = ls;
    help = false;
    notices = command_usage c.name (some m) ∷ [];
    world = w;
  }
  finish c ((ls, some help_requested), w) = record {
    status = 2;
    lines = ls;
    help = false;
    notices = command_usage c.name none ∷ [];
    world = w;
  }
  finish c ((ls, some (other_error e)), w) =
      let all_lines = ls ++ (denied_line c.name e ∷ []) in
      record {
        status = exit_status c.survey all_lines;
        lines = all_lines;
        help = false;
        notices = [];
        world = w;
      }

  -- The loop over the table; `marker` is the value of TRINKETS_PROBE.
  unfoldable pub run_named : List (Command W) → Bytes → Bytes → List Bytes → W → Execution W
  unfolding finish
  run_named [] marker name args w = record {
    status = 2;
    lines = [];
    help = false;
    notices = unknown_command name ∷ usage_text ∷ [];
    world = w;
  }
  run_named (c ∷ cs) marker name args w =
      if not (bytes_eq c.name name)
      then run_named cs marker name args w
      else if c.mutates && not (bytes_eq marker (codes "1"))
      then record {
        status = 3;
        lines = [];
        help = false;
        notices = refusing c.name ∷ [];
        world = w;
      }
      else finish c (c.fn args w)

  unfoldable pub run : List (Command W) → Bytes → List Bytes → W → Execution W
  unfolding run_named
  run table marker [] w = record {
    status = 2;
    lines = [];
    help = false;
    notices = usage_text ∷ [];
    world = w;
  }
  run table marker (a ∷ args) w =
      if bytes_eq a (codes "help") || (bytes_eq a (codes "-h") || bytes_eq a (codes "--help"))
      then record { status = 0; lines = []; help = true; notices = []; world = w }
      else run_named table marker a args w

abbrev pub natural_of : Option ℤ → Option ℕ
natural_of none = none
natural_of (some (pos n)) = some n
natural_of (some (negsuc n)) = none

-- `parseOwner`: the uid and the gid, or the usage error that names the part at fault.
unfoldable pub parse_owner : Bytes → Result OwnerError (ℕ × ℕ)
parse_owner s =
    let (u, rest) = cut b':' s in
    elim rest [
      | none ↦ err (not_an_owner s)
      | some g ↦ elim (natural_of (parse_int u)) [
        | none ↦ err (bad_uid u)
        | some uid ↦ elim (natural_of (parse_int g)) [
          | none ↦ err (bad_gid g)
          | some gid ↦ ok (uid, gid)
        ]
      ]
    ]

-- `counter`: the requests of each path, and of all. A path that the map lacks counts 0.
pub record Counter : Type 0 where
  pub paths : List (Bytes × ℕ)
  pub total : ℕ

unfoldable pub count_of : List (Bytes × ℕ) → Bytes → ℕ
count_of [] p = 0
count_of ((q, n) ∷ m) p = if bytes_eq q p then n else count_of m p

-- `c.paths[path]++`
unfoldable pub increment : List (Bytes × ℕ) → Bytes → List (Bytes × ℕ)
increment [] p = (p, 1) ∷ []
increment ((q, n) ∷ m) p =
    let rest = increment m p in if bytes_eq q p then (q, suc n) ∷ m else (q, n) ∷ rest

unfoldable pub hit : Bytes → Counter → Counter
unfolding increment
hit path c = record { paths = increment c.paths path; total = suc c.total }

-- `countsPath`
abbrev pub counts_path : Bytes
counts_path = codes "/__counts"

-- The path that an `http.ServeMux` serves a path under: cleaned, with a slash in front and the one at its end.
unfoldable pub mux_path : Bytes → Bytes
unfolding clean
mux_path p =
    let rooted = if is_abs p then p else codes "/" ++ p in
    let np = clean rooted in
    if has_suffix (codes "/") rooted && not (bytes_eq np (codes "/")) then np ++ codes "/" else np

-- A path that is not counted: the one of the counts, and one that the mux redirects to another without
-- calling a handler.
unfoldable pub uncounted : Bytes → Bool
unfolding mux_path
uncounted path = not (bytes_eq (mux_path path) path) || bytes_eq path counts_path

-- `newCountHandler` on the path of a request that is not CONNECT and in which nothing is escaped: the
-- counter after it.
unfoldable pub serve_count : Bytes → Counter → Counter
unfolding hit uncounted
serve_count path c = if uncounted path then c else hit path c

unfoldable pub serve_all : List Bytes → Counter → Counter
unfolding serve_count
serve_all [] c = c
serve_all (p ∷ ps) c = serve_all ps (serve_count p c)
