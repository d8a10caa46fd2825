-- ===== src/Range/Resolving.antt =====
-- What `resolve_range` answers, and the bytes that `slice_body` cuts out (range.rs).
use nozdormu.Prelude.{
  ◌||◌, ℕ, zero, suc, ◌+◌, ◌-◌, ◌≤◌, ◌<◌, min, ◌≡◌, ◌≢◌, ◌↔◌, refl, false, Option, none, some, List,
  [], ◌∷◌, ltb, leb, ◌==◌, if◌then◌else◌, length, take, drop, get_elem?, length-take, length-drop,
  arith, Bool-cases, Option-cases, inl, inr, ap, ◌∙◌,
}
use nozdormu.Prelude.Text.{Text, codes, strip_prefix, trim, split_once}
use nozdormu.Range.{
  RangeSpec, single, suffix_length, open_ended, Resolved, ok, err, parse_range_header,
  not_satisfiable, parse_spec, parse_ends, parse_parts, parse_suffix, unit_prefix, resolve_range,
  slice_body,
}

-- The positions that a range names in a body of `total` bytes (RFC 7233).
abbrev pub InRange : RangeSpec → ℕ → ℕ → Type 0
InRange (single start end) total i = (start ≤ i) × (i ≤ end) × (i < total)
InRange (suffix_length n) total i = (total ≤ i + n) × (i < total)
InRange (open_ended start) total i = (start ≤ i) × (i < total)

-- What the parser has checked of a range.
abbrev pub IsWellFormed : RangeSpec → Type 0
IsWellFormed (single start end) = start ≤ end
IsWellFormed (suffix_length n) = n ≢ 0
IsWellFormed (open_ended start) = Unit

-- The answer names exactly the positions of the range.
abbrev pub Answers : RangeSpec → ℕ → Resolved → Type 0
Answers spec total (ok s e) =
    (s ≤ e) × (e < total) × ((i : ℕ) → InRange spec total i ↔ ((s ≤ i) × (i ≤ e)))
Answers spec total (err x) = (x ≡ not_satisfiable) × ((i : ℕ) → ¬ InRange spec total i)

resolve_range_lem :
    (spec : RangeSpec) (total : ℕ)
    → IsWellFormed spec
    → Answers spec total (resolve_range spec total)
unfolding resolve_range
resolve_range_lem (single start end) total w = elim (Bool-cases (total == 0)) [
  | inl z ↦ rw z (refl, λ i h. ground arith)
  | inr n ↦ elim (Bool-cases (leb total start)) [
    | inl past ↦ rw (n, past) (refl, λ i h. ground arith)
    | inr fits ↦ rw (n, fits) (ground arith, ground arith, λ i. ground arith)
  ]
]
resolve_range_lem (suffix_length k) total w = elim (Bool-cases (total == 0)) [
  | inl z ↦ rw z (refl, λ i h. ground arith)
  | inr n ↦ elim (Bool-cases (k == 0)) [
    | inl past ↦ absurd (w (ground arith))
    | inr fits ↦ rw (n, fits) (ground arith, ground arith, λ i. ground arith)
  ]
]
resolve_range_lem (open_ended start) total w = elim (Bool-cases (total == 0)) [
  | inl z ↦ rw z (refl, λ i h. ground arith)
  | inr n ↦ elim (Bool-cases (leb total start)) [
    | inl past ↦ rw (n, past) (refl, λ i h. ground arith)
    | inr fits ↦ rw (n, fits) (ground arith, ground arith, λ i. ground arith)
  ]
]

get_elem?-take :
    {A : Type 0} (n k : ℕ) (xs : List A)
    → get_elem? (take n xs) k ≡ (if ltb k n then get_elem? xs k else none)
get_elem?-take zero k xs = ground arith
get_elem?-take (suc n) k [] = ground arith
get_elem?-take (suc n) zero (x ∷ xs) = ground arith
get_elem?-take (suc n) (suc k) (x ∷ xs) = ground (arith, get_elem?-take n k xs)

get_elem?-drop :
    {A : Type 0} (n k : ℕ) (xs : List A) → get_elem? (drop n xs) k ≡ get_elem? xs (n + k)
get_elem?-drop zero k xs = ap (get_elem? xs) (omega arith)
get_elem?-drop (suc n) k [] = refl
get_elem?-drop (suc n) k (x ∷ xs) =
    get_elem?-drop n k xs ∙ ap (get_elem? (x ∷ xs)) {x = suc (n + k)} (omega arith)

parse_ends-IsWellFormed :
    (a b : Text) (spec : RangeSpec) → parse_ends a b ≡ some spec → IsWellFormed spec
unfolding parse_ends
parse_ends-IsWellFormed a b (single start end) h = ground arith
parse_ends-IsWellFormed a b (suffix_length n) h = ground arith
parse_ends-IsWellFormed a b (open_ended start) h = tt

parse_suffix-IsWellFormed :
    (s : Text) (spec : RangeSpec) → parse_suffix s ≡ some spec → IsWellFormed spec
unfolding parse_suffix
parse_suffix-IsWellFormed s (single start end) h = ground arith
parse_suffix-IsWellFormed s (suffix_length n) h = ground arith
parse_suffix-IsWellFormed s (open_ended start) h = tt

parse_parts-IsWellFormed :
    (s : Option Text) (t : Option (Text × Text)) (spec : RangeSpec)
    → parse_parts s t ≡ some spec
    → IsWellFormed spec
unfolding parse_parts
parse_parts-IsWellFormed (some s) t spec h = parse_suffix-IsWellFormed s spec h
parse_parts-IsWellFormed none none spec h = cc
parse_parts-IsWellFormed none (some (a, b)) spec h = parse_ends-IsWellFormed a b spec h

parse_spec-IsWellFormed :
    (s : Text) (spec : RangeSpec) → parse_spec s ≡ some spec → IsWellFormed spec
unfolding parse_spec
parse_spec-IsWellFormed s spec h =
    parse_parts-IsWellFormed (strip_prefix (codes "-") (trim s)) (split_once b'-' (trim s)) spec
      (ground arith)

parse_range_header-IsWellFormed :
    (value : Text) (spec : RangeSpec) → parse_range_header value ≡ some spec → IsWellFormed spec
unfolding parse_range_header
parse_range_header-IsWellFormed value spec h =
    elim (Option-cases (strip_prefix unit_prefix (trim value))) [
      | inl no_unit ↦ let none_some : none ≡ some spec = rw (no_unit, parse_range_header) at h in cc
      | inr (rest, found) ↦ parse_spec-IsWellFormed rest spec (rw (found, parse_range_header) at h)
    ]

-- Every header that the parser accepts is resolved exactly, for every body size: either to a
-- nonempty span inside the body that holds just the positions of the range, or, when the range
-- names no position of the body, to "not satisfiable".
pub resolve_range-exact :
    (value : Text) (spec : RangeSpec) (total : ℕ)
    → parse_range_header value ≡ some spec
    → Answers spec total (resolve_range spec total)
resolve_range-exact value spec total h =
    resolve_range_lem spec total (parse_range_header-IsWellFormed value spec h)

slice_body-take :
    (body : List ℕ) (s e : ℕ)
    → s ≤ e
    → e < length body
    → slice_body body s e ≡ take (suc e - s) (drop s body)
unfolding slice_body
slice_body-take body s e h k =
    let last : min e (length body - 1) ≡ e = omega arith in
    let inside : (ltb e s || leb (length body) s) ≡ false = ground arith in rw (last, inside)

-- For a span inside the body, as `resolve_range` answers, `slice_body` returns the bytes from
-- `start` to `end` inclusive: as many as the span has, each the body's byte at its place.
pub slice_body-exact :
    (body : List ℕ) (s e : ℕ)
    → s ≤ e
    → e < length body
    → (length (slice_body body s e) ≡ suc e - s)
      × ((k : ℕ)
          → get_elem? (slice_body body s e) k
            ≡ (if ltb k (suc e - s) then get_elem? body (s + k) else none))
slice_body-exact body s e h k = rw (slice_body-take body s e h k) (
  omega (arith, length-take (suc e - s) (drop s body), length-drop s body),
  λ i.
      get_elem?-take (suc e - s) i (drop s body)
      ∙ ap (λ t. if ltb i (suc e - s) then t else none) (get_elem?-drop s i body),
)
