-- ===== src/Range/Tests.antt =====
-- Runs of range.rs at concrete headers, and its theorems at inputs that meet their hypotheses.
use nozdormu.Prelude.{
  ℕ, ◌≡◌, refl, true, false, none, some, List, [], ◌∷◌, ◌++◌, length, arith, if◌then◌else◌, ltb,
  get_elem?, ◌+◌,
}
use nozdormu.Prelude.Text.{codes, trim, split_once}
use nozdormu.Prelude.Decimal.{format, parse_u64}
use nozdormu.Range.{
  single, suffix_length, open_ended, parse_range_header, resolve_range, slice_body,
  content_range_header, check_if_range, unit_prefix, content_range_unsatisfied,
}
use nozdormu.Range.Resolving.{Answers, resolve_range-exact, slice_body-exact}
use nozdormu.Range.Parsing.{spell, parse_range_header-spell}

parsed : parse_range_header (codes " bytes=2-9 ") ≡ some (single 2 9)
unfolding parse_range_header trim split_once parse_u64
parsed = refl

parse_tests :
    (parse_range_header (codes "bytes=-500") ≡ some (suffix_length 500))
    × (parse_range_header (codes "bytes= 7 -") ≡ some (open_ended 7))
    × (parse_range_header (codes "bytes=0-1,4-5") ≡ none)
    × (parse_range_header (codes "bytes=9-2") ≡ none)
    × (parse_range_header (codes "bytes=-0") ≡ none)
    × (parse_range_header (codes "items=0-1") ≡ none)
    × (parse_range_header (codes "bytes=18446744073709551616-") ≡ none)
unfolding parse_range_header trim split_once parse_u64
parse_tests = (refl, refl, refl, refl, refl, refl, refl)

header_tests :
    (content_range_header 0 99 1000 ≡ codes "bytes 0-99/1000")
    × (content_range_unsatisfied 10 ≡ codes "bytes */10")
unfolding content_range_header content_range_unsatisfied format
header_tests = (refl, refl)

if_range_tests :
    (check_if_range (codes "\"abc\"") (some (codes "\"abc\"")) none ≡ true)
    × (check_if_range (codes "W/\"abc\"") (some (codes "W/\"abc\"")) none ≡ false)
    × (check_if_range (codes "Mon") none (some (codes "Mon ")) ≡ true)
unfolding check_if_range trim
if_range_tests = (refl, refl, refl)

resolve_range-exact_example : Answers (single 2 9) 5 (resolve_range (single 2 9) 5)
resolve_range-exact_example = resolve_range-exact (codes " bytes=2-9 ") (single 2 9) 5 parsed

abbrev body : List ℕ
body = 10 ∷ 11 ∷ 12 ∷ 13 ∷ []

slice_body-exact_example :
    (length (slice_body body 1 2) ≡ 2)
    × ((k : ℕ)
        → get_elem? (slice_body body 1 2) k ≡ (if ltb k 2 then get_elem? body (1 + k) else none))
slice_body-exact_example = slice_body-exact body 1 2 (omega arith) (omega arith)

parse_range_header-spell_example :
    parse_range_header (unit_prefix ++ spell (single 2 9)) ≡ some (single 2 9)
parse_range_header-spell_example =
    parse_range_header-spell (single 2 9) (omega arith) (omega arith, omega arith)
