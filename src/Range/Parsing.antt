-- ===== src/Range/Parsing.antt =====
-- A range header printed and parsed again (range.rs), and the header of a 206 response.
use nozdormu.Prelude.{
  ℕ, ◌<◌, ◌≡◌, ◌≢◌, refl, true, false, none, some, [], ◌∷◌, ◌++◌, All, All-append, arith,
}
use nozdormu.Prelude.Text.{
  Text, codes, strip_prefix, trim, trim_of_NoSpace, NoSpace, is_space, Lacks, contains_char_iff,
  split_once, split_once-append, text_eq,
}
use nozdormu.Prelude.Decimal.{
  format, is_digit, u64_mod, parse_u64-format, format-All, format-ne-nil,
}
use nozdormu.Range.{
  RangeSpec, single, suffix_length, open_ended, parse_range_header, parse_spec, parse_ends,
  parse_suffix, parse_parts, unit_prefix,
}
use nozdormu.Range.Resolving.{IsWellFormed}

-- A client's spelling of a range, without `bytes=`.
abbrev pub spell : RangeSpec → Text
spell (single start end) = format start ++ (b'-' ∷ format end)
spell (suffix_length n) = b'-' ∷ format n
spell (open_ended start) = format start ++ (b'-' ∷ [])

-- Its numbers fit in a u64.
abbrev pub Fits : RangeSpec → Type 0
Fits (single start end) = (start < u64_mod) × (end < u64_mod)
Fits (suffix_length n) = n < u64_mod
Fits (open_ended start) = start < u64_mod

-- The characters of a range: digits and `-`.
abbrev IsRangeChar : ℕ → Type 0
IsRangeChar c = (is_space c ≡ false) × (c ≢ b',')

IsRangeChar-digit : (c : ℕ) → is_digit c ≡ true → IsRangeChar c
IsRangeChar-digit c h = ground arith

IsRangeChar-of_digit : (s : Text) → All (λ c. is_digit c ≡ true) s → All IsRangeChar s
IsRangeChar-of_digit [] h = tt
IsRangeChar-of_digit (c ∷ s) h = (IsRangeChar-digit c h.0, IsRangeChar-of_digit s h.1)

Lacks-dash_of_digit : (s : Text) → All (λ c. is_digit c ≡ true) s → Lacks b'-' s
Lacks-dash_of_digit [] h = tt
Lacks-dash_of_digit (c ∷ s) h = (ground arith, Lacks-dash_of_digit s h.1)

NoSpace-of_range : (s : Text) → All IsRangeChar s → NoSpace s
NoSpace-of_range [] h = tt
NoSpace-of_range (c ∷ s) h = (h.0.0, NoSpace-of_range s h.1)

Lacks-comma_of_range : (s : Text) → All IsRangeChar s → Lacks b',' s
Lacks-comma_of_range [] h = tt
Lacks-comma_of_range (c ∷ s) h = (h.0.1, Lacks-comma_of_range s h.1)

format-IsRangeChar : (n : ℕ) → All IsRangeChar (format n)
format-IsRangeChar n = IsRangeChar-of_digit (format n) (format-All n)

dash-IsRangeChar : IsRangeChar b'-'
dash-IsRangeChar = ground arith

spell-IsRangeChar : (spec : RangeSpec) → All IsRangeChar (spell spec)
spell-IsRangeChar (single start end) =
    All-append IsRangeChar (format start) _ (format-IsRangeChar start)
      (dash-IsRangeChar, format-IsRangeChar end)
spell-IsRangeChar (suffix_length n) = (dash-IsRangeChar, format-IsRangeChar n)
spell-IsRangeChar (open_ended start) =
    All-append IsRangeChar (format start) _ (format-IsRangeChar start) (dash-IsRangeChar, tt)

trim-format : (n : ℕ) → trim (format n) ≡ format n
trim-format n = trim_of_NoSpace (format n) (NoSpace-of_range _ (format-IsRangeChar n))

first_not_dash : (n : ℕ) (t : Text) → strip_prefix (codes "-") (format n ++ t) ≡ none
first_not_dash n t = no_dash (format n) (format-ne-nil n) (format-All n)
  where
    no_dash :
        (s : Text)
        → s ≢ []
        → All (λ c. is_digit c ≡ true) s
        → strip_prefix (codes "-") (s ++ t) ≡ none
    no_dash [] h d = absurd (h refl)
    no_dash (c ∷ s) h d = ground arith

text_eq-nil : (s : Text) → s ≢ [] → text_eq s [] ≡ false
text_eq-nil [] h = absurd (h refl)
text_eq-nil (c ∷ s) h = refl

parse_spec_of_range :
    (s : Text)
    → s ≢ []
    → All IsRangeChar s
    → parse_spec s ≡ parse_parts (strip_prefix (codes "-") s) (split_once b'-' s)
unfolding parse_spec
parse_spec_of_range s h r = rw (
  (contains_char_iff b',' s).1 (Lacks-comma_of_range s r),
  trim_of_NoSpace s (NoSpace-of_range s r),
  text_eq-nil s h,
)

append-ne-nil : (s t : Text) → s ≢ [] → s ++ t ≢ []
append-ne-nil [] t h = absurd (h refl)
append-ne-nil (c ∷ s) t h = ground arith

parse_spec_ends :
    (start : ℕ) (t : Text)
    → All IsRangeChar t
    → parse_spec (format start ++ (b'-' ∷ t)) ≡ parse_ends (format start) t
unfolding parse_parts
parse_spec_ends start t r = rw (
  parse_spec_of_range _ (append-ne-nil (format start) _ (format-ne-nil start)) (
      All-append IsRangeChar (format start) (b'-' ∷ t) (format-IsRangeChar start)
        (dash-IsRangeChar, r)),
  first_not_dash start (b'-' ∷ t),
  split_once-append b'-' (format start) t (Lacks-dash_of_digit _ (format-All start)),
)

parse_spec-spell :
    (spec : RangeSpec) → IsWellFormed spec → Fits spec → parse_spec (spell spec) ≡ some spec
unfolding parse_ends parse_parts parse_suffix
parse_spec-spell (single start end) w (hs, he) =
    rw
      (
        parse_spec_ends start (format end) (format-IsRangeChar end),
        trim-format start,
        trim-format end,
        parse_u64-format start hs,
        text_eq-nil (format end) (format-ne-nil end),
        parse_u64-format end he,
      )
      (ground arith)
parse_spec-spell (suffix_length n) w h =
    rw
      (
        parse_spec_of_range (b'-' ∷ format n) (λ e. cc) (dash-IsRangeChar, format-IsRangeChar n),
        trim-format n,
        parse_u64-format n h,
      )
      (ground arith)
parse_spec-spell (open_ended start) w h = rw (
  parse_spec_ends start [] tt,
  trim-format start,
  parse_u64-format start h,
  trim_of_NoSpace [] tt,
)

-- The parser reads back every range that a client can spell: `bytes=X-Y` with X ≤ Y, `bytes=-N`
-- with N not zero, and `bytes=X-`, with numbers that fit in a u64.
pub parse_range_header-spell :
    (spec : RangeSpec)
    → IsWellFormed spec
    → Fits spec
    → parse_range_header (unit_prefix ++ spell spec) ≡ some spec
unfolding parse_range_header
parse_range_header-spell spec w h =
    let clean : NoSpace (unit_prefix ++ spell spec) =
      All-append _ unit_prefix _ (ground arith) (NoSpace-of_range _ (spell-IsRangeChar spec)) in
    rw (trim_of_NoSpace _ clean) (parse_spec-spell spec w h)
