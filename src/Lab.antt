-- ===== src/Lab.antt =====
-- The helpers that read settings: `Env` of internal/lab/lab.go; `Int`, `Choice` and `Limit` of
-- internal/lab/perf/perf.go; `Host` and `archToGOARCH` of internal/lab/docker/docker.go.
pub mod Settings
use systems_trinkets.Golang.Decimal.{parse_int, itoa_int}
use systems_trinkets.Common.{
  ℕ, zero, suc, max, Bool, not, ◌&&◌, Option, none, some, List, [], ◌∷◌, if◌then◌else◌, ℤ, int_le,
  pos, Bytes, codes, bytes_eq, is_empty, any,
}

-- `os.Getenv`: an unset variable reads as "".
abbrev pub Environment : Type 0
Environment = Bytes → Bytes

unfoldable pub env : Environment → Bytes → Bytes → Bytes
env getenv key default = let v = getenv key in if is_empty v then default else v

-- `strconv.Atoi` is `parse_int`. `none` is the panic.
unfoldable pub bounded : ℤ → ℤ → Option ℤ → Option ℤ
bounded low high none = none
bounded low high (some n) = if int_le low n && int_le n high then some n else none

-- `Int`
unfoldable pub int_setting : Environment → Bytes → ℤ → ℤ → ℤ → Option ℤ
unfolding env bounded
int_setting getenv name fallback low high =
    bounded low high (parse_int (env getenv name (itoa_int fallback)))

abbrev is_allowed : List Bytes → Bytes → Bool
is_allowed allowed v = any (bytes_eq v) allowed

-- `Choice` with at least one allowed value, the first being the default
unfoldable pub choice_setting : Environment → Bytes → Bytes → List Bytes → Option Bytes
unfolding env
choice_setting getenv name first others =
    let v = env getenv name first in if is_allowed (first ∷ others) v then some v else none

-- `Limit`: the state is the number of requests served; `true` passes the request on, `false` answers
-- 429. The int64 counter does not reach its bound.
unfoldable pub limit_step : ℤ → ℕ → Bool × ℕ
limit_step max served = (int_le (pos (suc served)) max, suc served)

unfoldable pub limit_all : ℤ → ℕ → ℕ → List Bool
unfolding limit_step
limit_all max served zero = []
limit_all max served (suc n) =
    let (passed, served') = limit_step max served in passed ∷ limit_all max served' n

-- `Host`, where `context_host` is the answer of the Docker CLI and `parses` is `client.ParseHostURL`
unfoldable pub host : Environment → Bytes → (Bytes → Bool) → Bytes → Bytes
unfolding env
host getenv context_host parses default_host =
    let h = env getenv (codes "DOCKER_HOST") [] in
    if not (is_empty h)
    then h
    else if not (is_empty context_host) && parses context_host
    then context_host
    else default_host

-- `archToGOARCH`; `none` is the error.
unfoldable pub arch_to_goarch : Bytes → Option Bytes
arch_to_goarch kernel =
    if bytes_eq kernel (codes "x86_64")
    then some (codes "amd64")
    else if bytes_eq kernel (codes "aarch64")
    then some (codes "arm64")
    else none
