-- ===== src/Probe/Restored/Sockets.antt =====
-- Connections and listeners are closed.
use systems_trinkets.Common.{
  ℕ, zero, suc, ◌≡◌, refl, List, [], ◌∷◌, ◌++◌, Result, ok, err, Bytes, codes,
}
use systems_trinkets.Probeout.{Line, ok_line}
use systems_trinkets.Probe.{Outcome, Usage}
use systems_trinkets.Probe.Arguments.{parse_mode}
use systems_trinkets.Probe.Network.{
  closing, asked, exchanged, line_first, dialled, answered, serve_peer, lines_first, accepted_then,
  serve_peers, closing_listener, listened, listen_masked, peer_echo, replaced, replace_check,
}
use systems_trinkets.Probe.Machine.{
  Action, listening, accepted, connected, connection_closed, umask_set, renamed, Credentials,
  Machine, World, acting, reports, refuses,
}
use systems_trinkets.Probe.Restored.Things.{
  Restored, Restored-refl, Restored-trans, Restored-cons, Brackets, Restored-Brackets,
  listener-Brackets, dial-Brackets, accept-Brackets, Restored-silent, umask_silent, renamed_silent,
}

module _ {S : Type 0} (m : Machine S) where
  -- The deferred closes.
  closing-Restored :
      (start : Action) (conn : Bytes) (log : List Action) (r : List Line × World S)
      → Brackets start (connection_closed conn)
      → Restored r.1.0 (start ∷ log)
      → Restored (closing m conn r).1.0 log
  unfolding closing
  closing-Restored start conn log (ls, (log', s)) b h = Restored-Brackets b h

  exchanged-log :
      (conn : Bytes) (message : List Bytes) (w : World S) → (exchanged m conn message w).1.0 ≡ w.0
  unfolding exchanged
  exchanged-log conn [] w = refl
  exchanged-log conn (message ∷ more) (log, s) = go (m.write_connection conn message s).0 _
    where
      go : (r : Result Bytes (Unit {0})) (s : S) → (asked m conn (r, s) log).1.0 ≡ log
      go (err e) s = unfold asked in refl
      go (ok u) s = unfold asked in refl

  pub dialled-Restored :
      (network addr : Bytes) (message : List Bytes) (r : Result Bytes Bytes) (s : S)
      (log : List Action)
      → Restored (dialled m network addr message (r, s) log).1.0 log
  unfolding dialled line_first
  dialled-Restored network addr message (err e) s log = Restored-refl log
  dialled-Restored network addr message (ok conn) s log =
      closing-Restored (connected conn) conn log
        (line_first m (ok_line (codes "dial") (network ++ (codes " " ++ addr)))
          (exchanged m conn message (connected conn ∷ log, s)))
        (dial-Brackets conn)
        (rw (exchanged-log conn message (connected conn ∷ log, s)) (Restored-refl _))

  serve_peer-Restored : (conn : Bytes) (w : World S) → Restored (serve_peer m conn w).1.0 w.0
  unfolding serve_peer
  serve_peer-Restored conn (log, s) =
      closing-Restored (accepted conn) conn log
        (answered m conn (m.peer_credentials conn s) (accepted conn ∷ log)) (accept-Brackets conn)
        (go (m.peer_credentials conn s).0 _)
    where
      go :
          (r : Result Bytes Credentials) (s : S)
          → Restored (answered m conn (r, s) (accepted conn ∷ log)).1.0 (accepted conn ∷ log)
      go (err e) s = unfold answered in Restored-refl _
      go (ok c) s = unfold answered in Restored-refl _

  serve_peers-Restored :
      (n : ℕ) (path : Bytes) (w : World S) → Restored (serve_peers m n path w).1.0 w.0
  unfolding serve_peers
  serve_peers-Restored zero path w = Restored-refl w.0
  serve_peers-Restored (suc n) path (log, s) =
      go (m.accept path s).0 _ (λ w. serve_peers-Restored n path w)
    where
      go :
          (r : Result Bytes Bytes) (s : S)
          → ((w : World S) → Restored (serve_peers m n path w).1.0 w.0)
          → Restored (accepted_then m (r, s) log (λ w. serve_peers m n path w)).1.0 log
      go (err e) s rest = unfold accepted_then in Restored-refl log
      go (ok conn) s rest =
          unfold accepted_then lines_first in
          Restored-trans (rest (serve_peer m conn (log, s)).1) (serve_peer-Restored conn (log, s))

  pub listened-Restored :
      (n : ℕ) (path : Bytes) (r : Result Bytes (Unit {0})) (w : World S) (log : List Action)
      → ((u : Unit {0}) → r ≡ ok u → Restored w.0 (listening path ∷ log))
      → ((e : Bytes) → r ≡ err e → Restored w.0 log)
      → Restored (listened m n path (r, w)).1.0 log
  unfolding listened closing_listener line_first
  listened-Restored n path (err e) w log h k = k e refl
  listened-Restored n path (ok u) w log h k =
      Restored-Brackets (listener-Brackets path)
        (Restored-trans (serve_peers-Restored n path w) (h u refl))

  pub replaced-Restored : (path : Bytes) (w : World S) → Restored (replace_check m path w).1.0 w.0
  unfolding replace_check acting
  replaced-Restored path (log, s) = go (m.listen (path ++ codes ".replace") s).0 _
    where
      renamed_over :
          (r : Result Bytes (Unit {0})) (s : S) (log : List Action)
          → Restored (acting (renamed (path ++ codes ".replace") path) (r, s) log).1.0 log
      renamed_over (ok u) s log = unfold acting in Restored-silent _ log (renamed_silent _ path)
      renamed_over (err e) s log = unfold acting in Restored-refl log

      go :
          (r : Result Bytes (Unit {0})) (s : S)
          → Restored
              (replaced m path (acting (listening (path ++ codes ".replace")) (r, s) log)).1.0
              log
      go (err e) s = unfold acting replaced in Restored-refl log
      go (ok u) s =
          unfold replaced closing_listener in
          Restored-Brackets (listener-Brackets _) (
            renamed_over (m.rename (path ++ codes ".replace") path s).0 _
              (listening (path ++ codes ".replace") ∷ log))

  pub peer_echo-Restored :
      (mask : Bytes) (n : ℕ) (path : Bytes) (w : World S)
      → Restored (peer_echo m mask n path w).1.0 w.0
  unfolding peer_echo
  peer_echo-Restored mask n path (log, s) = parsed (parse_mode mask)
    where
      go :
          (bits old : ℕ) (r : Result Bytes (Unit {0})) (s s' : S)
          → Restored
              (listened m n path (
                (acting (listening path) (r, s) (umask_set bits ∷ log)).0,
                (umask_set old ∷ (acting (listening path) (r, s) (umask_set bits ∷ log)).1.0, s'),
              )).1.0
              log
      go bits old (err e) s s' =
          unfold acting listened in
          Restored-trans (Restored-silent (umask_set old) (umask_set bits ∷ log) (umask_silent old))
            (Restored-silent (umask_set bits) log (umask_silent bits))
      go bits old (ok u) s s' =
          unfold acting in
          listened-Restored n path (ok u)
            (umask_set old ∷ listening path ∷ umask_set bits ∷ log, s') log
            (λ v e.
              Restored-trans
                (Restored-silent (umask_set old) (listening path ∷ umask_set bits ∷ log)
                  (umask_silent old))
                (Restored-cons (listening path)
                  (Restored-silent (umask_set bits) log (umask_silent bits))))
            (λ e f. absurd (cc))

      parsed :
          (r : Result Usage ℕ)
          → let end : Outcome (World S) = elim r [
            | err u ↦ refuses u (log, s)
            | ok bits ↦ reports (listened m n path (listen_masked m bits path (log, s)))
          ] in
            Restored end.1.0 log
      parsed (err u) = Restored-refl log
      parsed (ok bits) =
          unfold listen_masked in
          go bits (m.umask bits s).0 (m.listen path (m.umask bits s).1).0 _ _
