-- ===== src/Cache/Directives.antt =====
-- The TTL that the headers of a response give: strategy.rs, `parse_directive`, `adjust_ttl` and
-- `parse_stale_while_revalidate`. The seconds from now to an HTTP date, which chrono computes, are
-- the parameter `seconds_until`: `none` for a date that it cannot read.
use nozdormu.Prelude.{
  ℕ, ◌≡◌, ◌⊎◌, Option, none, some, List, [], ◌∷◌, ◌++◌, min, unwrap_or, ◌>>=◌, All,
}
use nozdormu.Prelude.Text.{Text, codes, strip_prefix, trim, lower, split}
use nozdormu.Prelude.Decimal.{parse_u64}

-- A signed number of seconds
pub data ℤ : Type 0 where
  pos negsuc : ℕ → ℤ

-- The number of a part of the header, if it is the directive with a number
unfoldable pub directive_value : Text → Text → Option ℕ
directive_value prefix part = strip_prefix prefix (trim part) >>= λ value. parse_u64 (trim value)

-- The loop over the parts: the first that has a number
unfoldable pub first_value : Text → List Text → Option ℕ
first_value prefix [] = none
first_value prefix (part ∷ parts) =
    let rest = first_value prefix parts in
    elim (directive_value prefix part) [ some v ↦ some v | none ↦ rest ]

unfoldable pub parse_directive : Text → Text → Option ℕ
unfolding first_value directive_value split trim parse_u64
parse_directive cache_control directive =
    first_value (directive ++ codes "=") (split b',' cache_control)

unfoldable pub parse_stale_while_revalidate : Option Text → ℕ
unfolding parse_directive
parse_stale_while_revalidate none = 0
parse_stale_while_revalidate (some header) =
    unwrap_or (parse_directive (lower header) (codes "stale-while-revalidate")) 0

-- The TTL by `s-maxage`, or else by `max-age`
unfoldable pub max_age : Option Text → Option ℕ
unfolding parse_directive
max_age none = none
max_age (some header) = elim (parse_directive (lower header) (codes "s-maxage")) [
  | some age ↦ some age
  | none ↦ parse_directive (lower header) (codes "max-age")
]

-- `(diff as u64).min(config_ttl)`, or 0
unfoldable pub cut : ℕ → Option ℤ → ℕ
cut config_ttl none = config_ttl
cut config_ttl (some (pos diff)) = min diff config_ttl
cut config_ttl (some (negsuc diff)) = 0

module _ (seconds_until : Text → Option ℤ) where
  -- The TTL by `Expires`: a date in the past gives none.
  unfoldable pub by_expires : ℕ → Option Text → ℕ
  unfolding cut
  by_expires config_ttl none = config_ttl
  by_expires config_ttl (some date) = cut config_ttl (seconds_until date)

  unfoldable pub adjust_ttl : ℕ → Option Text → Option Text → ℕ
  unfolding max_age by_expires
  adjust_ttl config_ttl cache_control expires = elim (max_age cache_control) [
    | some age ↦ min age config_ttl
    | none ↦ by_expires config_ttl expires
  ]

-- The header names the value `v` for a directive: in the first of its parts that gives it a number.
abbrev pub HasDirective : Text → Text → ℕ → Type 0
HasDirective header directive v =
    (before : List Text) × (part : Text) × (after : List Text) × (split b',' header
      ≡ before ++ (part ∷ after))
    × All (λ p. directive_value (directive ++ codes "=") p ≡ none) before
    × (directive_value (directive ++ codes "=") part ≡ some v)

abbrev pub LacksDirective : Text → Text → Type 0
LacksDirective header directive =
    All (λ p. directive_value (directive ++ codes "=") p ≡ none) (split b',' header)

-- What governs the TTL by a `Cache-Control` header: its `s-maxage`, or else its `max-age`, or nothing.
abbrev pub Governs : Text → Option ℕ → Type 0
Governs header (some age) =
    HasDirective header (codes "s-maxage") age
    ⊎ (LacksDirective header (codes "s-maxage") × HasDirective header (codes "max-age") age)
Governs header none =
    LacksDirective header (codes "s-maxage") × LacksDirective header (codes "max-age")
