-- ===== src/Witnesses/Texts.antt =====
-- The properties of the probe's line format, its exits and counter, of names and settings.
use systems_trinkets.Probeout.{
  Line, ok_line, denied_line, valid_name, valid_detail, sanitize, parse, format, find,
}
use systems_trinkets.Probeout.Sanitized.{
  Blanked, sanitize_lem, ok_line-IsWellFormed, denied_line-IsWellFormed,
}
use systems_trinkets.Probeout.RoundTrip.{parse-format, format-parse}
use systems_trinkets.Probeout.Search.{FoundAt, find_lem}
use systems_trinkets.Docker.Names.{lesson_re, kebab_from}
use systems_trinkets.Docker.Names.Laws.{IsKebab, lesson_re_iff}
use systems_trinkets.Docker.Peers.{peer_cred_text, parse_peer_cred, check_worker_has_no_route}
use systems_trinkets.Docker.Peers.Identity.{parse_peer_cred_lem, check_worker_has_no_route_lem}
use systems_trinkets.Golang.Paths.{clean}
use systems_trinkets.Probe.{mux_path, count_of, counts_path, serve_all}
use systems_trinkets.Probe.Counting.{serve_all_lem}
use systems_trinkets.Lab.{Environment, int_setting}
use systems_trinkets.Lab.Settings.{int_setting_lem}
use systems_trinkets.Common.{
  ◌≡◌, refl, ap, ◌∙◌, inr, true, some, [], ◌∷◌, ◌++◌, arith, if◌then◌else◌, pos, codes, bytes_eq,
  cut_suffix, has_suffix, split, fields_from, fields, length,
}

abbrev id_line : Line
id_line = ok_line (codes "id") (codes "uid=0 (root)")

abbrev write_line : Line
write_line = denied_line (codes "write-root") (codes "read-only: x) y")

named_id : valid_name (codes "id") ≡ true
unfolding valid_name
named_id = refl

named_write : valid_name (codes "write-root") ≡ true
unfolding valid_name
named_write = refl

parse-format_example : parse (format (id_line ∷ write_line ∷ [])) ≡ id_line ∷ write_line ∷ []
parse-format_example = parse-format (id_line ∷ write_line ∷ []) (
  ok_line-IsWellFormed (codes "id") (codes "uid=0 (root)") named_id,
  (denied_line-IsWellFormed (codes "write-root") (codes "read-only: x) y") named_write, tt),
)

format-parse_example : format (parse (codes "id: OK x\nnot a line")) ≡ (
    if has_suffix (codes "\n") (codes "id: OK x\nnot a line")
    then codes "id: OK x\nnot a line"
    else codes "id: OK x\nnot a line" ++ codes "\n")
format-parse_example = format-parse (codes "id: OK x\nnot a line") (λ h. absurd (cc h))

sanitize_lem_example :
    Blanked (codes "a\nb") (sanitize (codes "a\nb"))
    × (valid_detail (sanitize (codes "a\nb")) ≡ true)
    × (length (sanitize (codes "a\nb")) ≡ length (codes "a\nb"))
    × (sanitize (sanitize (codes "a\nb")) ≡ sanitize (codes "a\nb"))
    × (valid_detail (codes "a\nb") ≡ true → sanitize (codes "a\nb") ≡ codes "a\nb")
sanitize_lem_example = sanitize_lem (codes "a\nb")

find_lem_example : FoundAt (write_line ∷ id_line ∷ []) (codes "id") id_line
find_lem_example = (find_lem (write_line ∷ id_line ∷ []) (codes "id")).0 id_line found
  where
    found : find (write_line ∷ id_line ∷ []) (codes "id") ≡ some id_line
    found = unfold find ok_line denied_line bytes_eq in refl

lesson_re_iff_example : IsKebab (codes "worker-egress")
lesson_re_iff_example = (lesson_re_iff (codes "worker-egress")).0 matches
  where
    matches : lesson_re (codes "worker-egress") ≡ true
    matches = unfold lesson_re kebab_from in refl

parse_peer_cred_lem_example :
    parse_peer_cred (peer_cred_text (pos 20001) (pos 20001) (pos 7))
    ≡ some (pos 20001, pos 20001, pos 7)
parse_peer_cred_lem_example =
    (parse_peer_cred_lem (pos 20001) (pos 20001) (pos 7)).0 (omega arith) (omega arith)
      (omega arith)

abbrev lo_line : Line
lo_line = ok_line (codes "interfaces") (codes "lo")

lo_printed : find (parse (format (lo_line ∷ []))) (codes "interfaces") ≡ some lo_line
lo_printed =
    ap (λ ls. find ls (codes "interfaces"))
      (parse-format (lo_line ∷ [])
        (ok_line-IsWellFormed (codes "interfaces") (codes "lo") named_interfaces, tt))
    ∙ (unfold find ok_line bytes_eq in refl)
  where
    named_interfaces : valid_name (codes "interfaces") ≡ true
    named_interfaces = unfold valid_name in refl

lo_text : lo_line.detail ≡ codes "lo"
unfolding ok_line valid_detail
lo_text = (sanitize_lem (codes "lo")).4 refl

lo_fields : fields (codes "lo") ≡ codes "lo" ∷ []
unfolding fields fields_from
lo_fields = refl

lo_alone : (lo_line.ok ≡ true) × (fields lo_line.detail ≡ codes "lo" ∷ [])
lo_alone = (unfold ok_line in refl, ap fields lo_text ∙ lo_fields)

check_worker_has_no_route_lem_example :
    check_worker_has_no_route (format (lo_line ∷ [])) ≡ some true
check_worker_has_no_route_lem_example =
    (check_worker_has_no_route_lem (format (lo_line ∷ []))).0.1 (lo_line, lo_printed, lo_alone)

served : mux_path (codes "/a") ≡ codes "/a"
unfolding mux_path clean split bytes_eq has_suffix cut_suffix
served = refl

serve_all_lem_example :
    count_of
      (serve_all
        (codes "/a" ∷ counts_path ∷ codes "/a" ∷ [])
        (record { paths = []; total = 0 })).paths
      (codes "/a")
    ≡ 2
unfolding count_of bytes_eq
serve_all_lem_example =
    (serve_all_lem (codes "/a" ∷ counts_path ∷ codes "/a" ∷ [])
        (record { paths = []; total = 0 })).0
      (codes "/a") (λ e. absurd (cc e)) served

abbrev no_variables : Environment
no_variables key = []

int_setting_lem_example :
    int_setting no_variables (codes "POOL_SIZE") (pos 8) (pos 1) (pos 64) ≡ some (pos 8)
int_setting_lem_example =
    (int_setting_lem no_variables (codes "POOL_SIZE") (pos 8) (pos 1) (pos 64) (pos 8)).1
      (omega arith) refl refl (inr (refl, refl))
