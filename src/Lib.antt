-- ===== src/Lib.antt =====
-- systems-trinkets: the harness that runs fixture containers for the lessons (internal/lab/docker), the
-- line format in which its fixture binary reports (internal/lab/docker/probeout), that binary's command
-- line (internal/lab/docker/probe), the settings helpers (internal/lab, internal/lab/perf), and the
-- lesson cores of lessons/go: completed-job-counter/core, cache-aside/core, background-job-queue/core,
-- pipelining-work/core and sqlite-wal-lab/core.
--
-- How the parts interact. A lesson describes a container by a Spec. `Translate` refuses it or turns it
-- into the Request that is sent to the Docker Engine, `CheckConfig` checks that request, `Create` sends
-- it, and `CheckObserved` compares what the engine recorded with it. `Run` and `Start` build on `Create`
-- and on `Remove`; `ListLesson` and `Sweep` find and remove what carries a lesson's labels. Images for
-- the containers are built from a context that `fixtureContextTar` makes; in a container the probe prints
-- lines of probeout, which the checks of peers and egress read back.
--
-- Which file models what:
--   Common, Golang     shared helpers, and the parts of Go's library that the code calls (strings,
--                      strconv, path.Clean, unicode/utf8, slices), written out on byte lists
--   Probeout           internal/lab/docker/probeout/probeout.go: Line, OK, Denied, String, Parse,
--                      Format, Find
--   Docker.Names       the regular expressions, ContainerName, Labels, validID, validUser, ownedBy
--   Docker.Engine      the fields of the engine's records that the harness sets or reads
--   Docker.Spec        internal/lab/docker/spec.go: Spec, Restricted, Translate
--   Docker.Invariants  internal/lab/docker/invariants.go: CheckConfig, IsRestricted, CheckObserved
--   Docker.Peers       the peer and egress checks of invariants.go, egress.go and topology.go
--   Docker.Image       internal/lab/docker/image.go: validate, the Dockerfile and the build context
--   Docker.BuildStream the build stream of image.go: parseBuildStream
--   Docker.Client      the engine as its replies over an abstract state, and the record of the calls
--   Docker.Run         internal/lab/docker/run.go: Create, Start, Run, Stop, Wait, Logs, Inspect, Remove
--   Docker.Exec        internal/lab/docker/run.go: Exec
--   Docker.Cleanup     internal/lab/docker/cleanup.go: ListLesson, CheckNoLeak, Sweep, CreateVolume
--   Docker.Topology    internal/lab/docker/topology.go: BrokerSpec, WorkerSpec, socketVolume
--   Docker.Fixture     BuildFixture and buildContext of image.go, EngineArch of docker.go, buildProbe of
--                      topology.go
--   Docker.PeerCheck   topology.go: WaitLine, SocketVolume, VerifyPeerIdentity
--   Docker.Leaks       the containers, volumes and images whose removal a run does not call for
--   Probe              internal/lab/docker/probe: the command table and run of main.go, parseOwner of
--                      checks.go, the request counter of net.go
--   Probe.Machine      the system calls of the probe as replies over an abstract state, and the record
--                      of those that change something
--   Probe.Arguments    parseFlags of main.go, parseMode of checks.go
--   Probe.FileMode     fileMode of checks.go
--   Probe.Reports      the lines and texts of the checks of checks.go
--   Probe.Checks       the commands and checks of checks.go
--   Probe.Process      cmdAlloc, cmdFork and cmdInitDir of proc.go
--   Probe.Network      cmdDial, cmdPeerEcho and cmdReplace of net.go
--   Probe.Functions    the functions behind the command table
--   Lab                Env of internal/lab/lab.go; Int, Choice and Limit of internal/lab/perf/perf.go;
--                      Host and archToGOARCH of internal/lab/docker/docker.go
--   Lessons            lessons/go/completed-job-counter/core/core.go: Apply and its strategies;
--                      lessons/go/cache-aside/core/core.go: ReadProfile;
--                      lessons/go/background-job-queue/core/core.go: Work, by one worker and by many;
--                      lessons/go/pipelining-work/core/core.go: both increments and Sum;
--                      lessons/go/sqlite-wal-lab/core/core.go: DSN, OpenSnapshot and WriteEvent
--   Witnesses          the properties at concrete inputs
--
-- Conventions. A string is the list of its bytes. An int or int64 is an integer of Common without a bound
-- of its own: the code compares such values and does no arithmetic on them that could leave the type, but
-- for the sum of counters in Lessons.Pipelining, which wraps around. An error is a constructor with the
-- data that its message shows, not the message. Stateful code takes a world, which is the calls made so
-- far, the last one first, and the engine's state, and returns the next one. Loops are structural on a
-- list, but for these: the polling loops of Exec and WaitLine are given a number of polls, with theorems
-- on how many are enough, and the digits of a number are printed on a fuel that starts above the number.
--
-- What is a parameter. The engine is any record of replies (Docker.Client), and the machine under the
-- probe is another (Probe.Machine): nothing is assumed of them, and what a reply can depend on, the
-- context included, is part of their state. encoding/json is a parameter (Json, StreamJson), of which two
-- theorems assume that compacting a JSON object leaves an object. The database of the job counter is a
-- record of its statements, and the theorem's hypotheses are what Postgres documents of them; so are the
-- cache and the table of ReadProfile, the database of the job queue and the store of the pipelining
-- lesson. Of database/sql nothing is assumed. Deliveries and reads follow one another; the workers of the
-- job queue are interleaved at their calls, in any order given.
--
-- What is not modelled: the bytes of the tar archive; the probe's sleep, forward and http-get, its flags
-- with values, and a peer-echo that serves until it is stopped; HTTP servers and clients; the connections
-- to Postgres, Redis and Valkey; the programs that drive lessons and measure time, but for the workers of
-- background-job-queue/main.go.
pub mod Common
pub mod Golang
pub mod Probeout
pub mod Docker
pub mod Probe
pub mod Lab
pub mod Lessons
pub mod Witnesses
