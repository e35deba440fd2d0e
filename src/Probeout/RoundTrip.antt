-- ===== src/Probeout/RoundTrip.antt =====
-- Reading back what was printed, and printing what was read.
use systems_trinkets.Common.{
  ℕ, ◌≡◌, refl, sym, ap, ◌∙◌, subst, ◌≢◌, inl, inr, Bool, true, false, none, some, List, [], ◌∷◌,
  ◌++◌, map, append_assoc, append-nil, arith, if◌then◌else◌, Bool-cases, Option-cases, Bytes, codes,
  bytes_eq, bytes_eq_iff, cut_prefix, cut_prefix_sound, cut_prefix-append, Lacks, cut_suffix,
  has_suffix, trim_suffix, cut_suffix_sound, trim_suffix_lem, cut_suffix-append, trim_suffix-append,
  cut_on, cut_on_sound, cut_on-Lacks, split, gather-split, split-Lacks, split_at_sep, gather, All,
  All-append, All_imp,
}
use systems_trinkets.Probeout.{
  Line, valid_detail, valid_name, valid_name_tail, to_text, parse_ok, parse_denied, denied_detail,
  parse_status, parse_line, parse, format, separator, denied_open, newline,
}
use systems_trinkets.Probeout.Sanitized.{IsWellFormed}

-- Printing what was read.

to_text-parse_ok :
    (raw name d : Bytes)
    → raw ≡ name ++ (separator ++ (codes "OK " ++ d))
    → to_text (parse_ok raw name d) ≡ raw
unfolding to_text parse_ok
to_text-parse_ok raw name d h = ground arith

denied_detail_sound :
    (rest : Bytes) {d : Bytes}
    → denied_detail rest ≡ some d
    → rest ≡ denied_open ++ (d ++ codes ")")
unfolding denied_detail
denied_detail_sound rest {d} h = elim (Option-cases (cut_suffix (codes ")") rest)) [
  | inl e ↦ absurd (ground arith)
  | inr (i, e) ↦
      ground
        (arith, cut_suffix_sound (codes ")") rest {r = i} e, cut_prefix_sound denied_open i {r = d})
]

to_text-parse_denied :
    (raw name rest : Bytes)
    → raw ≡ name ++ (separator ++ rest)
    → to_text (parse_denied raw name (denied_detail rest)) ≡ raw
unfolding to_text parse_denied
to_text-parse_denied raw name rest h = elim (Option-cases (denied_detail rest)) [
  | inl e ↦ rw (e, parse_denied) refl
  | inr (d, e) ↦ ground (arith, denied_detail_sound rest {d = d} e)
]

to_text-parse_status :
    (raw name rest : Bytes)
    → raw ≡ name ++ (separator ++ rest)
    → to_text (parse_status raw name rest) ≡ raw
unfolding parse_status to_text
to_text-parse_status raw name rest h = elim (Bool-cases (bytes_eq rest (codes "OK"))) [
  | inl e ↦ ground (arith, bytes_eq_iff rest (codes "OK"))
  | inr e ↦ rw e (elim (Option-cases (cut_prefix (codes "OK ") rest)) [
    | inl f ↦ rw f (to_text-parse_denied raw name rest h)
    | inr (d, f) ↦ rw f (
        to_text-parse_ok raw name d (ground (arith, cut_prefix_sound (codes "OK ") rest {r = d} f)))
  ])
]

to_text-parse_cut :
    (raw name rest : Bytes)
    → cut_on separator raw ≡ some (name, rest)
    → to_text (parse_line raw) ≡ raw
unfolding parse_line to_text
to_text-parse_cut [] name rest h = refl
to_text-parse_cut (c ∷ s) name rest h = rw h (elim (Bool-cases (valid_name name)) [
  | inl e ↦
      rw e (to_text-parse_status (c ∷ s) name rest (cut_on_sound separator (c ∷ s) name rest h))
  | inr e ↦ rw e
])

-- Whatever a line holds, printing what was parsed gives its text back.
to_text-parse_line : (raw : Bytes) → to_text (parse_line raw) ≡ raw
unfolding parse_line to_text
to_text-parse_line [] = refl
to_text-parse_line (c ∷ s) = elim (Option-cases (cut_on separator (c ∷ s))) [
  | inl e ↦ rw e
  | inr (p, e) ↦ to_text-parse_cut (c ∷ s) p.0 p.1 e
]

gather-parse_line :
    (ps : List Bytes)
    → gather (λ l. to_text l ++ newline ∷ []) (map parse_line ps)
      ≡ gather (λ p. p ++ newline ∷ []) ps
gather-parse_line [] = refl
gather-parse_line (p ∷ ps) = rw (to_text-parse_line p, gather-parse_line ps)

-- Formatting a parse gives the text back, whatever it holds, with a newline added where the last
-- line lacked one.
pub format-parse :
    (s : Bytes)
    → s ≢ []
    → format (parse s) ≡ (if has_suffix (newline ∷ []) s then s else s ++ newline ∷ [])
unfolding format parse
format-parse [] h = absurd (h refl)
format-parse (c ∷ s) h = elim (trim_suffix_lem (newline ∷ []) (c ∷ s)) [
  | inl (ends, e) ↦ rw ends (gather-parse_line _ ∙ gather-split newline _ ∙ sym e)
  | inr (open_line, e) ↦
      rw open_line (gather-parse_line _ ∙ gather-split newline _ ∙ ap (λ t. t ++ newline ∷ []) e)
]

-- Reading back what was printed.

abbrev NameByte : ℕ → Type 0
NameByte c = (c ≢ b':') × (c ≢ newline)

valid_name_tail-All : (s : Bytes) → valid_name_tail s ≡ true → All NameByte s
unfolding valid_name_tail
valid_name_tail-All [] h = tt
valid_name_tail-All (c ∷ s) h = ground (arith, valid_name_tail-All s)

valid_name-All : (s : Bytes) → valid_name s ≡ true → All NameByte s
unfolding valid_name
valid_name-All [] h = tt
valid_name-All (c ∷ s) h = ground (arith, valid_name_tail-All s)

valid_name-Lacks : (s : Bytes) → valid_name s ≡ true → Lacks b':' s
valid_name-Lacks s h = All_imp (λ c b. b.0) s (valid_name-All s h)

-- A text behind a legal name and the separator is read by its status.
parse_line-status :
    (name rest : Bytes)
    → valid_name name ≡ true
    → parse_line (name ++ (separator ++ rest))
      ≡ parse_status (name ++ (separator ++ rest)) name rest
unfolding parse_line
parse_line-status [] rest h = absurd (unfold valid_name in cc)
parse_line-status (c ∷ name) rest h =
    rw (cut_on-Lacks b':' (b' ' ∷ []) (c ∷ name) rest (valid_name-Lacks (c ∷ name) h)) (rw h)

parse_status-ok :
    (raw name d : Bytes)
    → d ≢ []
    → valid_detail d ≡ true
    → parse_status raw name (codes "OK " ++ d)
      ≡ record { name = name; ok = true; detail = d; raw = []; err = none }
unfolding parse_status bytes_eq cut_prefix
parse_status-ok raw name [] ne h = absurd (ne refl)
parse_status-ok raw name (c ∷ d) ne h = rw h

denied_detail-append : (d : Bytes) → denied_detail (denied_open ++ (d ++ codes ")")) ≡ some d
unfolding denied_detail
denied_detail-append d =
    rw (cut_suffix-append (codes ")") (denied_open ++ d)) (cut_prefix-append denied_open d)

parse_status-denied :
    (raw name d : Bytes)
    → valid_detail d ≡ true
    → parse_status raw name (denied_open ++ (d ++ codes ")"))
      ≡ record { name = name; ok = false; detail = d; raw = []; err = none }
unfolding parse_status bytes_eq cut_prefix parse_denied
parse_status-denied raw name d h = rw (denied_detail-append d) (rw h)

-- The line that the parser builds from a name, a verdict and a detail.
parsed : Bytes → Bool → Bytes → Line
parsed name ok detail = record { name = name; ok = ok; detail = detail; raw = []; err = none }

parse_line-parsed :
    (name : Bytes) (ok : Bool) (detail : Bytes)
    → valid_name name ≡ true
    → valid_detail detail ≡ true
    → parse_line (to_text (parsed name ok detail)) ≡ parsed name ok detail
unfolding to_text parsed
parse_line-parsed name false d hn hd =
    parse_line-status name (denied_open ++ (d ++ codes ")")) hn ∙ parse_status-denied _ name d hd
parse_line-parsed name true [] hn hd =
    parse_line-status name (codes "OK") hn ∙ unfold parse_status bytes_eq in refl
parse_line-parsed name true (c ∷ d) hn hd =
    parse_line-status name (codes "OK " ++ (c ∷ d)) hn ∙ parse_status-ok _ name (c ∷ d) (λ e. cc) hd

IsWellFormed-parsed : (l : Line) → IsWellFormed l → l ≡ parsed l.name l.ok l.detail
unfolding parsed
IsWellFormed-parsed l w = λ i. record {
  name = l.name;
  ok = l.ok;
  detail = l.detail;
  raw = w.no_raw i;
  err = w.no_error i;
}

-- Every well-formed line is read back from its print, whatever its detail holds.
parse_line-to_text : (l : Line) → IsWellFormed l → parse_line (to_text l) ≡ l
parse_line-to_text l w =
    subst (λ x. parse_line (to_text x) ≡ x) (sym (IsWellFormed-parsed l w))
      (parse_line-parsed l.name l.ok l.detail w.name_valid w.detail_valid)

valid_detail-Lacks : (s : Bytes) → valid_detail s ≡ true → Lacks newline s
unfolding valid_detail
valid_detail-Lacks [] h = tt
valid_detail-Lacks (c ∷ s) h = ground (arith, valid_detail-Lacks s)

parsed-Lacks :
    (name : Bytes) (ok : Bool) (detail : Bytes)
    → Lacks newline name
    → Lacks newline detail
    → Lacks newline (to_text (parsed name ok detail))
unfolding to_text parsed
parsed-Lacks name false d hn hd =
    All-append _ name _ hn
      (All-append _ (separator ++ denied_open) _ (omega arith) (All-append _ d _ hd (omega arith)))
parsed-Lacks name true [] hn hd = All-append _ name _ hn (omega arith)
parsed-Lacks name true (c ∷ d) hn hd =
    All-append _ name _ hn (All-append _ (separator ++ codes "OK ") (c ∷ d) (omega arith) hd)

-- A printed line is one line.
to_text-Lacks : (l : Line) → IsWellFormed l → Lacks newline (to_text l)
to_text-Lacks l w =
    subst (λ x. Lacks newline (to_text x)) (sym (IsWellFormed-parsed l w))
      (parsed-Lacks l.name l.ok l.detail
        (All_imp (λ c b. b.1) l.name (valid_name-All l.name w.name_valid))
        (valid_detail-Lacks l.detail w.detail_valid))

-- texts joined by newlines, the first given
joined : Bytes → List Bytes → Bytes
joined t [] = t
joined t (u ∷ us) = t ++ (newline ∷ joined u us)

gather-joined :
    (t : Bytes) (ts : List Bytes)
    → gather (λ p. p ++ newline ∷ []) (t ∷ ts) ≡ joined t ts ++ newline ∷ []
unfolding joined
gather-joined t [] = append-nil _
gather-joined t (u ∷ us) = simp (gather-joined u us, append_assoc)

split-joined :
    (t : Bytes) (ts : List Bytes)
    → All (Lacks newline) (t ∷ ts)
    → split newline (joined t ts) ≡ t ∷ ts
unfolding joined
split-joined t [] (h, _) = split-Lacks newline t h
split-joined t (u ∷ us) (h, hs) = rw (split_at_sep newline t _ h, split-joined u us hs)

map-to_text-Lacks : (ls : List Line) → All IsWellFormed ls → All (Lacks newline) (map to_text ls)
map-to_text-Lacks [] h = tt
map-to_text-Lacks (l ∷ ls) (w, ws) = (to_text-Lacks l w, map-to_text-Lacks ls ws)

map-parse_line : (ls : List Line) → All IsWellFormed ls → map parse_line (map to_text ls) ≡ ls
map-parse_line [] h = refl
map-parse_line (l ∷ ls) (w, ws) = rw (parse_line-to_text l w, map-parse_line ls ws)

gather-to_text :
    (ls : List Line)
    → gather (λ l. to_text l ++ newline ∷ []) ls ≡ gather (λ p. p ++ newline ∷ []) (map to_text ls)
gather-to_text [] = refl
gather-to_text (l ∷ ls) = rw (gather-to_text ls)

parse-append_newline : (t : Bytes) → parse (t ++ newline ∷ []) ≡ map parse_line (split newline t)
unfolding parse trim_suffix cut_suffix bytes_eq
parse-append_newline [] = refl
parse-append_newline (c ∷ t) =
    ap (λ u. map parse_line (split newline u)) (trim_suffix-append (newline ∷ []) (c ∷ t))

-- Parsing a print gives the lines back, if each is well formed.
pub parse-format : (ls : List Line) → All IsWellFormed ls → parse (format ls) ≡ ls
unfolding format
parse-format [] h = unfold parse in refl
parse-format (l ∷ ls) h =
    ap parse (gather-to_text (l ∷ ls) ∙ gather-joined (to_text l) (map to_text ls))
    ∙ parse-append_newline (joined (to_text l) (map to_text ls))
    ∙ ap (map parse_line) (split-joined (to_text l) (map to_text ls) (map-to_text-Lacks (l ∷ ls) h))
    ∙ map-parse_line (l ∷ ls) h
