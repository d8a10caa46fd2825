-- ===== src/Range/Conditions.antt =====
-- The `If-Range` precondition (range.rs).
use nozdormu.Prelude.{◌≡◌, ◌↔◌, ◌⊎◌, true, Option, none, some, [], arith, refl}
use nozdormu.Prelude.Text.{Text, codes, text_eq_iff, trim, starts_with}
use nozdormu.Range.{check_if_range, matches_etag, matches_date}

abbrev pub IsWeak : Text → Type 0
IsWeak t = starts_with (codes "W/") t ≡ true

abbrev pub IsQuoted : Text → Type 0
IsQuoted t = starts_with (codes "\"") t ≡ true

-- When the precondition allows a partial answer: there is none, or it is the strong entity tag of
-- the stored response, or (for a value that is no tag) its modification date.
abbrev pub Allows : Text → Option Text → Option Text → Type 0
Allows value etag last_modified =
    (value ≡ [])
    ⊎ (IsQuoted value
        × (¬ IsWeak value)
        × ((t : Text) × (etag ≡ some t) × (¬ IsWeak (trim t)) × (trim t ≡ value)))
    ⊎ ((¬ IsQuoted value)
        × (¬ IsWeak value)
        × ((t : Text) × (last_modified ≡ some t) × (trim t ≡ value)))

matches_etag_iff :
    (value : Text) (etag : Option Text)
    → (matches_etag value etag ≡ true)
      ↔ ((t : Text) × (etag ≡ some t) × (¬ IsWeak (trim t)) × (trim t ≡ value))
unfolding matches_etag
matches_etag_iff value none = (λ h. cc, λ h. let (t, e, r, q) = h in cc)
matches_etag_iff value (some etag) = (
  λ h. (etag, refl, ground arith, ground (arith, text_eq_iff (trim etag) value)),
  λ h. let (t, e, w, q) = h in ground (arith, text_eq_iff (trim etag) value),
)

matches_date_iff :
    (value : Text) (date : Option Text)
    → (matches_date value date ≡ true) ↔ ((t : Text) × (date ≡ some t) × (trim t ≡ value))
unfolding matches_date
matches_date_iff value none = (λ h. cc, λ h. let (t, e, r) = h in cc)
matches_date_iff value (some date) = (
  λ h. (date, refl, ground (arith, text_eq_iff (trim date) value)),
  λ h. let (t, e, q) = h in ground (arith, text_eq_iff (trim date) value),
)

-- The check answers "partial" exactly when the precondition allows it; in particular a weak tag,
-- on either side, never does.
pub check_if_range_iff :
    (if_range : Text) (etag last_modified : Option Text)
    → (check_if_range if_range etag last_modified ≡ true)
      ↔ Allows (trim if_range) etag last_modified
unfolding check_if_range
check_if_range_iff if_range etag last_modified = ground (
  arith,
  text_eq_iff (trim if_range) [],
  matches_etag_iff (trim if_range) etag,
  matches_date_iff (trim if_range) last_modified,
)
