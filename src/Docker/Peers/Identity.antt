-- ===== src/Docker/Peers/Identity.antt =====
-- What the peer-identity and egress checks show when they find nothing.
use systems_trinkets.Golang.Decimal.{itoa_int, InInt64, parse_int-itoa_int, itoa_int-Lacks}
use systems_trinkets.Probeout
use systems_trinkets.Probeout.{Line}
use systems_trinkets.Docker.Spec.Accepted.{report_nil}
use systems_trinkets.Docker.Peers.{
  route_of, peer_cred_text, scan_number, parse_peer_cred, PeerDial, PeerViolation, reply_violations,
  peer_uid_is_assigned_uid, dial_violations, socket_group_gates_connect, dial_check, group_uids,
  outsiders, check_peer_identity, worker_has_no_route, check_worker_has_no_route,
}
use systems_trinkets.Common.{
  ◌≤◌, ◌≡◌, refl, ◌∙◌, ◌↔◌, ◌⊎◌, inl, inr, true, false, ◌||◌, Option, none, some, List, [], ◌∷◌,
  ◌++◌, arith, ltb, ◌==◌, if◌then◌else◌, Option-cases, bind-eq-some, bind-some, ℤ, int_eq_iff,
  Bytes, codes, bytes_eq, bytes_eq_iff, bytes_eq_refl, cut_prefix-append, cut_at_sep, cut-Lacks,
  has_infix, fields, length, append_eq_nil, gather, All, All_imp, gather_eq_nil,
}

scan_number-middle :
    (prefix : Bytes) (n : ℤ) (rest : Bytes)
    → InInt64 n
    → scan_number prefix (prefix ++ (itoa_int n ++ (b' ' ∷ rest))) ≡ some (n, rest)
unfolding scan_number
scan_number-middle prefix n rest h = rw (cut_prefix-append prefix (itoa_int n ++ (b' ' ∷ rest))) (
    rw (cut_at_sep b' ' (itoa_int n) rest (itoa_int-Lacks b' ' n refl (omega arith)))
      (rw (parse_int-itoa_int n h)))

scan_number-last :
    (prefix : Bytes) (n : ℤ) → InInt64 n → scan_number prefix (prefix ++ itoa_int n) ≡ some (n, [])
unfolding scan_number
scan_number-last prefix n h = rw (cut_prefix-append prefix (itoa_int n)) (
    rw (cut-Lacks b' ' (itoa_int n) (itoa_int-Lacks b' ' n refl (omega arith)))
      (rw (parse_int-itoa_int n h)))

parse_peer_cred_complete :
    (u g p : ℤ)
    → InInt64 u
    → InInt64 g
    → InInt64 p
    → parse_peer_cred (peer_cred_text u g p) ≡ some (u, g, p)
unfolding parse_peer_cred
parse_peer_cred_complete u g p hu hg hp =
    let pids = codes "pid=" ++ itoa_int p in
    let gids = codes "gid=" ++ (itoa_int g ++ (b' ' ∷ pids)) in
    let first : scan_number (codes "uid=") (peer_cred_text u g p) ≡ some (u, gids) =
      unfold peer_cred_text in scan_number-middle (codes "uid=") u gids hu in
    bind-some _ _ first
    ∙ bind-some _ _ (scan_number-middle (codes "gid=") g pids hg)
    ∙ bind-some _ _ (scan_number-last (codes "pid=") p hp)
    ∙ rw (bytes_eq_refl (peer_cred_text u g p))

parse_peer_cred_sound :
    (s : Bytes) (u g p : ℤ) → parse_peer_cred s ≡ some (u, g, p) → s ≡ peer_cred_text u g p
unfolding parse_peer_cred
parse_peer_cred_sound s u g p h =
    let (a, _, h₁) = bind-eq-some (scan_number (codes "uid=") s) _ h in
    let (b, _, h₂) = bind-eq-some (scan_number (codes "gid=") a.1) _ h₁ in
    let (c, _, h₃) = bind-eq-some (scan_number (codes "pid=") b.1) _ h₂ in printed a.0 b.0 c.0 h₃
  where
    printed :
        (x y z : ℤ)
        → if◌then◌else◌ {A = Option (ℤ × ℤ × ℤ)}
            (bytes_eq (peer_cred_text x y z) s)
            (some (x, y, z))
            none
          ≡ some (u, g, p)
        → s ≡ peer_cred_text u g p
    printed x y z e = ground (arith, bytes_eq_iff (peer_cred_text x y z) s)

-- The three numbers of a report, in the range of `int`, are read back from its text; and a text is
-- read only if it is the report of the numbers returned.
pub parse_peer_cred_lem :
    (u g p : ℤ)
    → (InInt64 u → InInt64 g → InInt64 p → parse_peer_cred (peer_cred_text u g p) ≡ some (u, g, p))
      × ((s : Bytes) → parse_peer_cred s ≡ some (u, g, p) → s ≡ peer_cred_text u g p)
parse_peer_cred_lem u g p = (parse_peer_cred_complete u g p, λ s. parse_peer_cred_sound s u g p)

-- The broker's reply names the identity that the launcher assigned.
abbrev pub IdentityReported : PeerDial → Type 0
IdentityReported d =
    (l : Line) × (g : ℤ) × (p : ℤ) × (Probeout.find (Probeout.parse d.stdout) (codes "reply")
      ≡ some l)
    × (l.ok ≡ true)
    × (l.detail ≡ peer_cred_text d.uid g p)

-- The dial was refused for permission.
abbrev pub DialRefused : PeerDial → Type 0
DialRefused d =
    (l : Line) × (Probeout.find (Probeout.parse d.stdout) (codes "dial") ≡ some l)
    × (l.ok ≡ false)
    × (has_infix (codes "permission denied") l.detail ≡ true)

reply_uid :
    (d : PeerDial) (l : Line) (u g p : ℤ)
    → parse_peer_cred l.detail ≡ some (u, g, p)
    → reply_violations d (some l) ≡ []
    → (l.ok ≡ true) × (u ≡ d.uid)
unfolding reply_violations
reply_uid d l u g p f h = ground (arith, int_eq_iff u d.uid)

reply_violations-nil :
    (d : PeerDial) (o : Option Line)
    → Probeout.find (Probeout.parse d.stdout) (codes "reply") ≡ o
    → reply_violations d o ≡ []
    → IdentityReported d
reply_violations-nil d none e h = absurd (unfold reply_violations in cc)
reply_violations-nil d (some l) e h = elim (Option-cases (parse_peer_cred l.detail)) [
  | inl f ↦ absurd (unfold reply_violations in ground arith)
  | inr ((u, g, p), f) ↦
      let (fine, same) = reply_uid d l u g p f h in
      (l, g, p, e, fine, rw (← same) (parse_peer_cred_sound l.detail u g p f))
]

dial_violations-nil :
    (d : PeerDial) (o : Option Line)
    → Probeout.find (Probeout.parse d.stdout) (codes "dial") ≡ o
    → dial_violations d o ≡ []
    → DialRefused d
dial_violations-nil d none e h = absurd (unfold dial_violations in cc)
dial_violations-nil d (some l) e h =
    let (a, b) : (l.ok ≡ false) × (has_infix (codes "permission denied") l.detail ≡ true) =
      unfold dial_violations in ground arith in
    (l, e, a, b)

-- What a set of dials without violations shows.
pub record IdentityHolds (dials : List PeerDial) : Type 0 where
  pub reported : All (λ d. d.in_group ≡ true → IdentityReported d) dials
  pub refused : All (λ d. d.in_group ≡ false → DialRefused d) dials
  pub two_uids : 2 ≤ length (group_uids dials)
  pub an_outsider : 1 ≤ outsiders dials

dial_check-reported : (d : PeerDial) → dial_check d ≡ [] → d.in_group ≡ true → IdentityReported d
dial_check-reported d h e =
    reply_violations-nil d _ refl (unfold dial_check peer_uid_is_assigned_uid in rw e at h)

dial_check-refused : (d : PeerDial) → dial_check d ≡ [] → d.in_group ≡ false → DialRefused d
dial_check-refused d h e =
    dial_violations-nil d _ refl (unfold dial_check socket_group_gates_connect in rw e at h)

-- When `checkPeerIdentity` finds nothing, every worker in the socket group got a reply that reports
-- the UID assigned to it, every other one was refused its dial for permission, and the dials hold
-- at least two UIDs in the group and one worker outside it.
pub check_peer_identity_sound :
    (dials : List PeerDial) → check_peer_identity dials ≡ [] → IdentityHolds dials
unfolding check_peer_identity
check_peer_identity_sound dials h =
    let (a, b) = append_eq_nil (gather dial_check dials) _ h in
    let each = gather_eq_nil dial_check dials a in
    let enough =
      report_nil (ltb (length (group_uids dials)) 2 || outsiders dials == 0) PeerViolation.too_few
        b in
    record {
      reported = All_imp dial_check-reported dials each;
      refused = All_imp dial_check-refused dials each;
      two_uids = ground arith;
      an_outsider = ground arith;
    }

has_no_route_iff : (is : List Bytes) → (worker_has_no_route is ≡ true) ↔ (is ≡ codes "lo" ∷ [])
unfolding worker_has_no_route
has_no_route_iff [] = ground arith
has_no_route_iff (i ∷ []) = ground (arith, bytes_eq_iff i (codes "lo"))
has_no_route_iff (i ∷ (j ∷ is)) = ground arith

abbrev OnlyLoopback : Line → Type 0
OnlyLoopback l = (l.ok ≡ true) × (fields l.detail ≡ codes "lo" ∷ [])

route_of_lem :
    (o : Option Line)
    → ((route_of o ≡ some true) ↔ ((l : Line) × (o ≡ some l) × OnlyLoopback l))
      × ((route_of o ≡ none) ↔ ((o ≡ none) ⊎ ((l : Line) × (o ≡ some l) × (l.ok ≡ false))))
unfolding route_of
route_of_lem none = ((λ h. absurd (cc), λ h. absurd (cc h.1)), (λ _. inl refl, λ _. refl))
route_of_lem (some l) = (
  (
    λ h. (l, refl, ground (arith, has_no_route_iff (fields l.detail))),
    λ (k, e, f). ground (arith, has_no_route_iff (fields l.detail), f.0, f.1),
  ),
  (
    λ h. inr (l, refl, ground arith),
    λ h. elim h [ inl e ↦ absurd (cc) | inr (k, e, f) ↦ ground arith ],
  ),
)

-- worker-has-no-route holds of a probe's output exactly when its first well-formed `interfaces` line
-- is OK and lists `lo` alone; the check cannot run exactly when there is no such line or it is DENIED.
pub check_worker_has_no_route_lem :
    (stdout : Bytes)
    → ((check_worker_has_no_route stdout ≡ some true) ↔ (
        (l : Line) × (Probeout.find (Probeout.parse stdout) (codes "interfaces") ≡ some l)
        × OnlyLoopback l))
      × ((check_worker_has_no_route stdout ≡ none) ↔ (
          (Probeout.find (Probeout.parse stdout) (codes "interfaces") ≡ none)
          ⊎ ((l : Line) × (Probeout.find (Probeout.parse stdout) (codes "interfaces") ≡ some l)
              × (l.ok ≡ false))))
unfolding check_worker_has_no_route
check_worker_has_no_route_lem stdout = route_of_lem _
