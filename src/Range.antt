-- ===== src/Range.antt =====
-- Byte ranges: crates/cdn-proxy/src/range.rs. Numbers are u64, and no arithmetic of this file
-- can wrap: it only takes minima, saturating differences and `total_size - 1` at `total_size > 0`.
pub mod Parsing
pub mod Resolving
pub mod Conditions
mod Tests
use nozdormu.Prelude.{
  ℕ, suc, ◌+◌, ◌-◌, ◌≤◌, ◌<◌, min, ◌≡◌, refl, Bool, true, false, ◌&&◌, ◌||◌, Option, none, some,
  List, [], ◌∷◌, ◌++◌, ltb, leb, ◌==◌, if◌then◌else◌, ◌>>=◌, length, take, drop,
}
use nozdormu.Prelude.Text.{
  Text, codes, text_eq, strip_prefix, starts_with, contains_char, trim, split_once,
}
use nozdormu.Prelude.Decimal.{parse_u64, format}

pub data RangeSpec : Type 0 where
  single : ℕ → ℕ → RangeSpec
  suffix_length : ℕ → RangeSpec
  open_ended : ℕ → RangeSpec

pub data RangeError : Type 0 where
  not_satisfiable multi_range_not_supported : RangeError

-- The `Ok` and `Err` of `resolve_range`.
pub data Resolved : Type 0 where
  ok : ℕ → ℕ → Resolved
  err : RangeError → Resolved

-- `Display` of `RangeError`
pub display : RangeError → Text
display not_satisfiable = codes "Range Not Satisfiable"
display multi_range_not_supported = codes "Multi-Range Not Supported"

abbrev pub unit_prefix : Text
unit_prefix = codes "bytes="

-- `bytes=-N`
pub parse_suffix : Text → Option RangeSpec
parse_suffix suffix = do
  n ← parse_u64 (trim suffix)
  if n == 0 then none else some (suffix_length n)

-- `bytes=X-` and `bytes=X-Y`, from the parts around the first `-`
pub parse_ends : Text → Text → Option RangeSpec
parse_ends start_str end_str = do
  start ← parse_u64 (trim start_str)
  if text_eq (trim end_str) []
      then some (open_ended start)
      else parse_u64 (trim end_str) >>= λ end.
          if ltb end start then none else some (single start end)

-- The two forms of a range, by what `strip_prefix('-')` and `split_once('-')` find.
pub parse_parts : Option Text → Option (Text × Text) → Option RangeSpec
parse_parts (some suffix) parts = parse_suffix suffix
parse_parts none none = none
parse_parts none (some (start_str, end_str)) = parse_ends start_str end_str

-- What follows `bytes=`
pub parse_spec : Text → Option RangeSpec
parse_spec rest =
    if contains_char b',' rest
    then none
    else if text_eq (trim rest) []
    then none
    else parse_parts (strip_prefix (codes "-") (trim rest)) (split_once b'-' (trim rest))

unfoldable pub parse_range_header : Text → Option RangeSpec
unfolding parse_spec parse_parts parse_ends parse_suffix
parse_range_header value = do rest ← strip_prefix unit_prefix (trim value); parse_spec rest

unfoldable pub resolve_range : RangeSpec → ℕ → Resolved
resolve_range (single start end) total =
    if total == 0
    then err not_satisfiable
    else if leb total start
    then err not_satisfiable
    else ok start (min end (total - 1))
resolve_range (suffix_length n) total =
    if total == 0
    then err not_satisfiable
    else if n == 0
    then err not_satisfiable
    else ok (total - n) (total - 1)
resolve_range (open_ended start) total =
    if total == 0
    then err not_satisfiable
    else if leb total start
    then err not_satisfiable
    else ok start (total - 1)

pub content_range_header : ℕ → ℕ → ℕ → Text
content_range_header start end total =
    codes "bytes " ++ (format start ++ (codes "-" ++ (format end ++ (codes "/" ++ format total))))

pub content_range_unsatisfied : ℕ → Text
content_range_unsatisfied total = codes "bytes */" ++ format total

-- The comparison with the entity tag of the stored response, for an `If-Range` that is a tag
pub matches_etag : Text → Option Text → Bool
matches_etag if_range none = false
matches_etag if_range (some etag) =
    if starts_with (codes "W/") (trim etag) then false else text_eq (trim etag) if_range

pub matches_date : Text → Option Text → Bool
matches_date if_range none = false
matches_date if_range (some lm) = text_eq (trim lm) if_range

pub check_if_range : Text → Option Text → Option Text → Bool
unfolding matches_etag matches_date
check_if_range if_range etag last_modified =
    let value = trim if_range in
    if text_eq value []
    then true
    else if starts_with (codes "\"") value || starts_with (codes "W/") value
    then if starts_with (codes "W/") value then false else matches_etag value etag
    else matches_date value last_modified

-- `body[start..=end]`, with `end` cut to the last index; `usize` is 64 bits wide.
unfoldable pub slice_body {ℓ} : {A : Type ℓ} → List A → ℕ → ℕ → List A
slice_body body start end =
    let last = min end (length body - 1) in
    if ltb last start || leb (length body) start
    then []
    else take (suc last - start) (drop start body)
