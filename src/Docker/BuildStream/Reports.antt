-- ===== src/Docker/BuildStream/Reports.antt =====
-- `parseBuildStream`: which streams are a success, and which error the others report.
use mathlib.Core.Path.{ap₂}
use systems_trinkets.Docker.BuildStream.{
  Unmarshalled, StreamJson, StreamError, not_an_object, read_failed, invalid, null, object,
  key_value, trim, build_failure, line_step, read_lines, parse_build_stream,
}
use systems_trinkets.Common.{
  ℕ, ◌+◌, ◌≡◌, refl, sym, ap, ◌∙◌, ◌≢◌, ◌↔◌, ◌⊎◌, inl, inr, Bool, true, false, Option, none, some,
  List, [], ◌∷◌, ◌++◌, arith, if◌then◌else◌, Bytes, codes, split, All,
}

or_else : Option StreamError → Option StreamError → Option StreamError
or_else none e = e
or_else (some e) f = some e

module _ (json : StreamJson) where
  -- The failure that a text reports, and the error of a malformed one; the second argument is what
  -- encoding/json makes of the text.
  failure_of : Bytes → Unmarshalled → Option StreamError
  failure_of [] u = none
  failure_of (c ∷ t) invalid = none
  failure_of (c ∷ t) null = none
  failure_of (c ∷ t) (object obj) = build_failure json obj (c ∷ t)

  malformed_of : ℕ → Bytes → Unmarshalled → Option StreamError
  malformed_of n [] u = none
  malformed_of n (c ∷ t) (object obj) = none
  malformed_of n (c ∷ t) invalid = some (not_an_object n)
  malformed_of n (c ∷ t) null = some (not_an_object n)

  line_failure : Bytes → Option StreamError
  unfolding failure_of
  line_failure line = failure_of (trim line) (json.unmarshal (trim line))

  line_malformed : ℕ → Bytes → Option StreamError
  unfolding malformed_of
  line_malformed n line = malformed_of n (trim line) (json.unmarshal (trim line))

  -- The first failure of the lines, and the first malformed line.
  first_failure : List Bytes → Option StreamError
  first_failure [] = none
  first_failure (l ∷ ls) = or_else (line_failure l) (first_failure ls)

  first_malformed : ℕ → List Bytes → Option StreamError
  first_malformed n [] = none
  first_malformed n (l ∷ ls) = or_else (line_malformed n l) (first_malformed (n + 1) ls)

  line_step_lem :
      (n : ℕ) (l : Bytes) (f m : Option StreamError)
      → line_step json n l (f, m) ≡ (or_else f (line_failure l), or_else m (line_malformed n l))
  unfolding line_step line_failure line_malformed or_else
  line_step_lem n l f m = ground arith

or_else_assoc : (a b c : Option StreamError) → or_else (or_else a b) c ≡ or_else a (or_else b c)
unfolding or_else
or_else_assoc none b c = refl
or_else_assoc (some e) b c = refl

or_else-none : (a b : Option StreamError) → (or_else a b ≡ none) ↔ ((a ≡ none) × (b ≡ none))
unfolding or_else
or_else-none none b = (λ h. (refl, h), λ h. h.1)
or_else-none (some e) b = (λ h. absurd (cc), λ h. absurd (cc h.0))

module _ (json : StreamJson) where
  read_lines_lem :
      (n : ℕ) (ls : List Bytes) (f m : Option StreamError)
      → read_lines json n ls (f, m)
        ≡ (or_else f (first_failure json ls), or_else m (first_malformed json n ls))
  unfolding read_lines first_failure first_malformed
  read_lines_lem n [] f m = unfold or_else in ground arith
  read_lines_lem n (l ∷ ls) f m =
      ap (read_lines json (n + 1) ls) (line_step_lem json n l f m)
      ∙ read_lines_lem (n + 1) ls _ _
      ∙ ap₂ (λ x y. (x, y)) (or_else_assoc f _ _) (or_else_assoc m _ _)

  read_error_of : Bool → Option StreamError
  read_error_of b = if b then some read_failed else none

  parse_build_stream-first :
      (text : Bytes) (read_error : Bool)
      → parse_build_stream json text read_error
        ≡ or_else
            (first_failure json (split b'\n' text))
            (or_else (first_malformed json 1 (split b'\n' text)) (read_error_of read_error))
  unfolding parse_build_stream or_else read_error_of
  parse_build_stream-first text read_error =
      rw (read_lines_lem 1 (split b'\n' text) none none) (unfold or_else in ground arith)

  -- A text that the daemon may print without reporting a failure: an empty one, or a JSON object with
  -- neither an errorDetail nor an error key.
  abbrev ProgressOf : Bytes → Unmarshalled → Type 0
  ProgressOf t u =
      (t ≡ [])
      ⊎ ((obj : List (Bytes × Bytes)) × (u ≡ object obj)
          × (key_value obj (codes "errorDetail") ≡ none)
          × (key_value obj (codes "error") ≡ none))

  abbrev pub Progress : Bytes → Type 0
  Progress l = ProgressOf (trim l) (json.unmarshal (trim l))

  build_failure-none :
      (obj : List (Bytes × Bytes)) (t : Bytes)
      → (build_failure json obj t ≡ none)
        ↔ ((key_value obj (codes "errorDetail") ≡ none) × (key_value obj (codes "error") ≡ none))
  unfolding build_failure
  build_failure-none obj t = (λ h. ground arith, λ (a, b). rw (a, b))

  progress_of :
      (n : ℕ) (t : Bytes) (u : Unmarshalled)
      → ((failure_of json t u ≡ none) × (malformed_of json n t u ≡ none)) ↔ ProgressOf t u
  unfolding failure_of malformed_of
  progress_of n [] u = (λ h. inl refl, λ h. (refl, refl))
  progress_of n (c ∷ t) invalid =
      (λ h. absurd (cc h.1), λ h. elim h [ inl e ↦ absurd (cc) | inr (obj, e, a, b) ↦ absurd (cc) ])
  progress_of n (c ∷ t) null =
      (λ h. absurd (cc h.1), λ h. elim h [ inl e ↦ absurd (cc) | inr (obj, e, a, b) ↦ absurd (cc) ])
  progress_of n (c ∷ t) (object obj) = (
    λ h. let (a, b) = (build_failure-none obj (c ∷ t)).0 h.0 in inr (obj, refl, a, b),
    λ h. elim h [
      | inl e ↦ absurd (cc)
      | inr (k, e, a, b) ↦
          let same : obj ≡ k = cc in
          ((build_failure-none obj (c ∷ t)).1 (rw same a, rw same b), refl)
    ],
  )

  first_Progress :
      (n : ℕ) (ls : List Bytes)
      → ((first_failure json ls ≡ none) × (first_malformed json n ls ≡ none)) ↔ All Progress ls
  unfolding first_failure first_malformed line_failure line_malformed
  first_Progress n [] = (λ h. tt, λ h. (refl, refl))
  first_Progress n (l ∷ ls) = (
    λ (f, m).
        let (f₁, f₂) = (or_else-none _ _).0 f in
        let (m₁, m₂) = (or_else-none _ _).0 m in
        ((progress_of n (trim l) _).0 (f₁, m₁), (first_Progress (n + 1) ls).0 (f₂, m₂)),
    λ (h, hs).
        let (f₁, m₁) = (progress_of n (trim l) _).1 h in
        let (f₂, m₂) = (first_Progress (n + 1) ls).1 hs in
        ((or_else-none _ _).1 (f₁, f₂), (or_else-none _ _).1 (m₁, m₂)),
  )

  first_failure-append :
      (before after : List Bytes) (l : Bytes) (e : StreamError)
      → All Progress before
      → line_failure json l ≡ some e
      → first_failure json (before ++ (l ∷ after)) ≡ some e
  unfolding first_failure line_failure or_else
  first_failure-append [] after l e h f = rw f
  first_failure-append (b ∷ before) after l e (h, hs) f =
      rw (((progress_of 0 (trim b) _).1 h).0) (first_failure-append before after l e hs f)

  read_error_of-none : (b : Bool) → (read_error_of b ≡ none) ↔ (b ≡ false)
  unfolding read_error_of
  read_error_of-none true = (λ h. absurd (cc), λ h. absurd (cc))
  read_error_of-none false = (λ h. refl, λ h. refl)

  failure_of-object :
      (t : Bytes) (u : Unmarshalled) (obj : List (Bytes × Bytes)) (e : StreamError)
      → t ≢ []
      → u ≡ object obj
      → build_failure json obj t ≡ some e
      → failure_of json t u ≡ some e
  failure_of-object [] u obj e ne h f = absurd (ne refl)
  failure_of-object (c ∷ t) u obj e ne h f = rw h (unfold failure_of in f)

  reported :
      (text : Bytes) (read_error : Bool) (before after : List Bytes) (l : Bytes) (e : StreamError)
      → split b'\n' text ≡ before ++ (l ∷ after)
      → first_failure json (before ++ (l ∷ after)) ≡ some e
      → or_else
          (first_failure json (split b'\n' text))
          (or_else (first_malformed json 1 (split b'\n' text)) (read_error_of read_error))
        ≡ some e
  unfolding or_else
  reported text read_error before after l e sp h =
      let first : first_failure json (split b'\n' text) ≡ some e = rw sp h in rw first refl

  -- `parseBuildStream` returns no error exactly when the stream ended without a read error and each
  -- of its lines is blank or a JSON object with neither an errorDetail nor an error key. A stream whose
  -- first line of another kind is an object that has such a key reports the failure of that line,
  -- whatever follows it.
  pub parse_build_stream_lem :
      (text : Bytes) (read_error : Bool)
      → ((parse_build_stream json text read_error ≡ none)
          ↔ ((read_error ≡ false) × All Progress (split b'\n' text)))
        × ((before after : List Bytes) (l : Bytes) (obj : List (Bytes × Bytes)) (e : StreamError)
            → split b'\n' text ≡ before ++ (l ∷ after)
            → All Progress before
            → trim l ≢ []
            → json.unmarshal (trim l) ≡ object obj
            → build_failure json obj (trim l) ≡ some e
            → parse_build_stream json text read_error ≡ some e)
  parse_build_stream_lem text read_error = (exactly, reports)
    where
      exactly :
          (parse_build_stream json text read_error ≡ none)
          ↔ ((read_error ≡ false) × All Progress (split b'\n' text))
      exactly = (
        λ h.
            let (f, rest) =
              (or_else-none _ _).0 (sym (parse_build_stream-first text read_error) ∙ h) in
            let (m, r) = (or_else-none _ _).0 rest in
            ((read_error_of-none read_error).0 r, (first_Progress 1 _).0 (f, m)),
        λ (r, hs).
            let (f, m) = (first_Progress 1 _).1 hs in
            parse_build_stream-first text read_error
            ∙ (or_else-none _ _).1
                (f, (or_else-none _ _).1 (m, (read_error_of-none read_error).1 r)),
      )

      reports :
          (before after : List Bytes) (l : Bytes) (obj : List (Bytes × Bytes)) (e : StreamError)
          → split b'\n' text ≡ before ++ (l ∷ after)
          → All Progress before
          → trim l ≢ []
          → json.unmarshal (trim l) ≡ object obj
          → build_failure json obj (trim l) ≡ some e
          → parse_build_stream json text read_error ≡ some e
      reports before after l obj e sp hs ne u f =
          let failed : line_failure json l ≡ some e =
            unfold line_failure in failure_of-object (trim l) _ obj e ne u f in
          parse_build_stream-first text read_error
          ∙ reported text read_error before after l e sp
              (first_failure-append before after l e hs failed)
