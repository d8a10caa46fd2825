-- ===== src/Waf/Body.antt =====
-- The inspection of request bodies: cdn-middleware/src/waf/body.rs. The infer crate's detection of a
-- type by its first bytes is a parameter.
use nozdormu.Prelude.{
  ℕ, Bool, true, false, ◌&&◌, ◌||◌, not, Option, none, some, List, [], any, ltb, ◌==◌,
  if◌then◌else◌, length,
}
use nozdormu.Prelude.Text.{
  Text, codes, text_eq, eq_ignore_ascii_case, split, trim, first_or, strip_suffix,
}

pub data BodyCheckResult : Type 0 where
  allow : BodyCheckResult
  too_large : ℕ → Option ℕ → BodyCheckResult
  content_type_blocked content_type_mismatch : Text → Text → BodyCheckResult

pub record BodyInspectionConfig : Type 0 where
  pub enabled : Bool
  pub max_body_size : ℕ
  pub allowed_content_types : List Text
  pub blocked_content_types : List Text
  pub inspect_methods : List Text

unfoldable pub exceeds : Option ℕ → ℕ → Bool
exceeds none limit = false
exceeds (some size) limit = ltb limit size

unfoldable pub check_content_length : Option ℕ → Text → BodyInspectionConfig → BodyCheckResult
unfolding exceeds
check_content_length content_length method config =
    if config.enabled
    then if any (λ m. eq_ignore_ascii_case m method) config.inspect_methods
      then if ltb 0 config.max_body_size && exceeds content_length config.max_body_size
        then too_large config.max_body_size content_length
        else allow
      else allow
    else allow

-- `split('/').next()`
unfoldable pub family : Text → Text
unfolding split
family mime = first_or (split b'/' mime) []

-- `type/*`
unfoldable pub matches_family : Text → Text → Bool
unfolding family
matches_family pattern mime = elim (strip_suffix (codes "/*") pattern) [
  | some prefix ↦ eq_ignore_ascii_case prefix (family mime)
  | none ↦ false
]

unfoldable pub mime_matches : Text → Text → Bool
unfolding matches_family trim
mime_matches pattern mime =
    (text_eq (trim pattern) (codes "*/*") || text_eq (trim pattern) (codes "*"))
    || (eq_ignore_ascii_case (trim pattern) (trim mime)
        || matches_family (trim pattern) (trim mime))

-- The declared type, without its parameters
unfoldable pub base_type : Text → Text
unfolding split trim
base_type declared = trim (first_or (split b';' declared) declared)

-- The declared type is of another family.
unfoldable pub is_mismatch : Text → Text → Bool
unfolding mime_matches family
is_mismatch declared_base detected =
    (not (length declared_base == 0) && not (mime_matches declared_base detected))
    && ((not (length (family declared_base) == 0) && not (length (family detected) == 0))
        && not (eq_ignore_ascii_case (family declared_base) (family detected)))

unfoldable pub check_declared : Option Text → Text → BodyCheckResult
unfolding base_type is_mismatch
check_declared none detected = allow
check_declared (some declared) detected =
    if is_mismatch (base_type declared) detected
    then content_type_mismatch (base_type declared) detected
    else allow

-- The checks of a type that was detected, and of one that was not
unfoldable pub check_detected : Option Text → Option Text → BodyInspectionConfig → BodyCheckResult
unfolding mime_matches check_declared
check_detected none declared config =
    if length config.allowed_content_types == 0
    then allow
    else content_type_blocked (codes "unknown")
        (codes "unrecognized file type, allowed list is set")
check_detected (some detected) declared config =
    if length config.allowed_content_types == 0
      || any (λ p. mime_matches p detected) config.allowed_content_types
    then if any (λ p. mime_matches p detected) config.blocked_content_types
      then content_type_blocked detected (codes "in blocked content types")
      else check_declared declared detected
    else content_type_blocked detected (codes "not in allowed content types")

module _ (infer : List ℕ → Option Text) where
  unfoldable pub check_magic_bytes : List ℕ → Option Text → BodyInspectionConfig → BodyCheckResult
  unfolding check_detected
  check_magic_bytes first_bytes declared config =
      if config.enabled
      then if length config.allowed_content_types == 0 && length config.blocked_content_types == 0
        then allow
        else check_detected (infer first_bytes) declared config
      else allow

-- A type that is known, on the list of the allowed types if there is one, on none of the blocked
-- types, and not declared as one of another family
abbrev pub agrees : Option Text → Text → Bool
agrees none detected = true
agrees (some declared) detected = not (is_mismatch (base_type declared) detected)

abbrev pub is_acceptable : Option Text → Option Text → BodyInspectionConfig → Bool
is_acceptable none declared config = length config.allowed_content_types == 0
is_acceptable (some detected) declared config =
    (length config.allowed_content_types == 0
      || any (λ p. mime_matches p detected) config.allowed_content_types)
    && (not (any (λ p. mime_matches p detected) config.blocked_content_types)
        && agrees declared detected)
