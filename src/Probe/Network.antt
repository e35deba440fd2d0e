-- ===== src/Probe/Network.antt =====
-- internal/lab/docker/probe/net.go: dialling a socket, answering peers with their credentials, and replacing
-- a socket.
use systems_trinkets.Common.{
  ℕ, zero, suc, not, ◌&&◌, ◌||◌, Option, none, some, List, [], ◌∷◌, ◌++◌, reverse, ◌==◌,
  if◌then◌else◌, Result, ok, err, Bytes, codes, bytes_eq,
}
use systems_trinkets.Golang.Decimal.{itoa, itoa_int}
use systems_trinkets.Probeout.{Line, ok_line, denied_line}
use systems_trinkets.Probe.{Outcome, bad_network}
use systems_trinkets.Probe.Arguments.{parse_flags, parse_mode}
use systems_trinkets.Probe.Checks.{with_args}
use systems_trinkets.Probe.Reports.{argument}
use systems_trinkets.Probe.Machine.{
  Action, umask_set, listening, listener_closed, accepted, connected, connection_closed, renamed,
  Credentials, Machine, World, Check, result_line, acting, reports, refuses,
}

trim_front_eol : Bytes → Bytes
trim_front_eol [] = []
trim_front_eol (c ∷ s) = if c == b'\n' || c == b'\r' then trim_front_eol s else c ∷ s

-- `trimEOL`
unfoldable pub trim_eol : Bytes → Bytes
unfolding trim_front_eol
trim_eol s = reverse (trim_front_eol (reverse s))

-- What `ReadString` gave counts where it is not empty, whatever its error.
unfoldable pub reply_line : Bytes × Option Bytes → Line
unfolding trim_eol
reply_line ([], some e) = denied_line (codes "reply") e
reply_line ([], none) = ok_line (codes "reply") (trim_eol [])
reply_line (c ∷ s, e) = ok_line (codes "reply") (trim_eol (c ∷ s))

unfoldable pub credentials_text : Credentials → Bytes
credentials_text c =
    codes "uid="
    ++ (itoa c.uid ++ (codes " gid=" ++ (itoa c.gid ++ (codes " pid=" ++ itoa_int c.pid))))

module _ {S : Type 0} (m : Machine S) where
  -- The deferred close of a connection, behind the lines.
  unfoldable pub closing : Bytes → List Line × World S → List Line × World S
  closing conn (ls, (log, s)) = (ls, (connection_closed conn ∷ log, m.close_connection conn s))

  unfoldable pub asked : Bytes → Result Bytes (Unit {0}) × S → List Action → List Line × World S
  unfolding reply_line
  asked conn (err e, s) log = (denied_line (codes "reply") e ∷ [], (log, s))
  asked conn (ok u, s) log = let (got, s') = m.read_line conn s in (reply_line got ∷ [], (log, s'))

  -- The message of a dial that has one, and the reply to it.
  unfoldable pub exchanged : Bytes → List Bytes → World S → List Line × World S
  unfolding asked
  exchanged conn [] w = ([], w)
  exchanged conn (message ∷ more) (log, s) = asked conn (m.write_connection conn message s) log

  unfoldable pub line_first : Line → List Line × World S → List Line × World S
  line_first l (ls, w) = (l ∷ ls, w)

  unfoldable pub dialled :
      Bytes → Bytes → List Bytes → Result Bytes Bytes × S → List Action → List Line × World S
  unfolding closing exchanged line_first
  dialled network addr message (err e, s) log = (denied_line (codes "dial") e ∷ [], (log, s))
  dialled network addr message (ok conn, s) log = closing conn (
      line_first (ok_line (codes "dial") (network ++ (codes " " ++ addr)))
        (exchanged conn message (connected conn ∷ log, s)))

  unfoldable pub dial_arguments : List Bytes → World S → Outcome (World S)
  unfolding dialled
  dial_arguments (network ∷ addr ∷ message) (log, s) =
      if not (bytes_eq network (codes "unix")) && not (bytes_eq network (codes "tcp"))
      then refuses (bad_network network) (log, s)
      else reports (dialled network addr message (m.dial network addr s) log)
  dial_arguments _ w = reports ([], w)

  -- `cmdDial`
  unfoldable pub dial_command : List Bytes → World S → Outcome (World S)
  unfolding dial_arguments with_args parse_flags
  dial_command args w = with_args m (parse_flags 2 3 args) dial_arguments w

  -- The answer to a peer whose credentials are known, after its request line. Errors of the connection
  -- are dropped.
  unfoldable pub answered : Bytes → Result Bytes Credentials × S → List Action → List Line × World S
  unfolding credentials_text
  answered conn (err e, s) log = (denied_line (codes "peer") e ∷ [], (log, s))
  answered conn (ok c, s) log =
      let (request, s1) = m.read_line conn s in
      let (written, s2) = m.write_connection conn (credentials_text c ++ codes "\n") s1 in
      (ok_line (codes "peer") (credentials_text c) ∷ [], (log, s2))

  -- One connection, answered and closed.
  unfoldable pub serve_peer : Bytes → World S → List Line × World S
  unfolding closing answered
  serve_peer conn (log, s) =
      closing conn (answered conn (m.peer_credentials conn s) (accepted conn ∷ log))

  unfoldable pub lines_first : List Line → List Line × World S → List Line × World S
  lines_first ks (ls, w) = (ks ++ ls, w)

  -- One round of the loop: an accept that failed ends it.
  unfoldable pub accepted_then :
      Result Bytes Bytes × S → List Action → (World S → List Line × World S) → List Line × World S
  unfolding serve_peer lines_first
  accepted_then (err e, s) log next = (denied_line (codes "accept") e ∷ [], (log, s))
  accepted_then (ok conn, s) log next =
      let (ls, w) = serve_peer conn (log, s) in lines_first ls (next w)

  -- The loop of `cmdPeerEcho` over that many connections. With a count of 0 the code goes on until an
  -- accept fails or the process is stopped; a prefix of that is this loop over any number.
  unfoldable pub serve_peers : ℕ → Bytes → World S → List Line × World S
  unfolding accepted_then
  serve_peers zero path w = ([], w)
  serve_peers (suc n) path (log, s) =
      accepted_then (m.accept path s) log (λ w. serve_peers n path w)

  -- The deferred close of the listener.
  unfoldable pub closing_listener : Bytes → List Line × World S → List Line × World S
  closing_listener path (ls, (log, s)) = (ls, (listener_closed path ∷ log, m.close_listener path s))

  unfoldable pub listened : ℕ → Bytes → Result Bytes (Unit {0}) × World S → List Line × World S
  unfolding closing_listener serve_peers line_first
  listened n path (err e, w) = (denied_line (codes "listen") e ∷ [], w)
  listened n path (ok u, w) =
      closing_listener path (line_first (ok_line (codes "listen") path) (serve_peers n path w))

  -- The socket is created under the umask, which is put back at once.
  unfoldable pub listen_masked : ℕ → Bytes → World S → Result Bytes (Unit {0}) × World S
  unfolding acting
  listen_masked mask path (log, s) =
      let (old, s1) = m.umask mask s in
      let (r, (log', s2)) = acting (listening path) (m.listen path s1) (umask_set mask ∷ log) in
      let (mine, s3) = m.umask old s2 in (r, (umask_set old ∷ log', s3))

  -- `cmdPeerEcho` for a count of at least 1, after its flags are parsed
  unfoldable pub peer_echo : Bytes → ℕ → Bytes → World S → Outcome (World S)
  unfolding listened listen_masked parse_mode
  peer_echo mask_text n path w = elim (parse_mode mask_text) [
    | err u ↦ refuses u w
    | ok mask ↦ reports (listened n path (listen_masked mask path w))
  ]

  unfoldable pub replaced : Bytes → Result Bytes (Unit {0}) × World S → List Line × World S
  unfolding closing_listener acting result_line
  replaced path (err e, w) = (denied_line (codes "replace") e ∷ [], w)
  replaced path (ok u, (log, s)) =
      let from = path ++ codes ".replace" in
      let (r, w') = acting (renamed from path) (m.rename from path s) log in
      closing_listener from (result_line (codes "replace") path r ∷ [], w')

  unfoldable pub replace_check : Bytes → Check S
  unfolding replaced acting
  replace_check path (log, s) =
      let from = path ++ codes ".replace" in
      replaced path (acting (listening from) (m.listen from s) log)

  -- `cmdReplace`
  unfoldable pub replace_command : List Bytes → World S → Outcome (World S)
  unfolding replace_check with_args parse_flags
  replace_command args w =
      with_args m (parse_flags 1 1 args) (λ rest w. reports (replace_check (argument rest 0) w)) w
