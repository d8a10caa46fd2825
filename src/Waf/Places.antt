-- ===== src/Waf/Places.antt =====
-- The checks of the place of an address (steps 3 to 6 of `check_with_sets` in waf/mod.rs) against
-- one condition on the lists.
use nozdormu.Prelude.{
  ℕ, ◌≡◌, refl, Bool, true, false, ◌&&◌, ◌||◌, not, Option, none, some, List, [], ◌∷◌, any, is_some,
  ◌==◌, length, arith, Option-cases, inl, inr, unwrap_or,
}
use nozdormu.Prelude.Text.{Text, codes}
use nozdormu.Prelude.Map.{lookup}
use nozdormu.Waf.{
  PrefixSet, GeoInfo, is_listed, blocked_regions, or_else, find_region, WafRules, needs_geo,
  check_asn, check_country_whitelist, check_blacklist, check_region, check_geo,
}

-- Whether a code that may be unknown is on a list
abbrev pub on_list : Option Text → List Text → Bool
on_list none listed = false
on_list (some code) listed = is_listed code listed

abbrev pub asn_listed : Option ℕ → List ℕ → Bool
asn_listed none listed = false
asn_listed (some asn) listed = any (λ a. a == asn) listed

abbrev pub country_admitted : Option Text → List Text → Bool
country_admitted country listed = length listed == 0 || on_list country listed

unfoldable pub region_listed :
    (Text → Text) → Option Text → Option Text → List (Text × List Text) → Bool
unfolding blocked_regions
region_listed to_uppercase none subdivision regions = false
region_listed to_uppercase (some country) subdivision regions =
    on_list subdivision (unwrap_or (blocked_regions (to_uppercase country) regions) [])

is_some-or_else : (a b : Option (Text × Text)) → is_some (or_else a b) ≡ (is_some a || is_some b)
is_some-or_else none b = refl
is_some-or_else (some o) b = refl

on_list-nil : (code : Option Text) → on_list code [] ≡ false
on_list-nil none = refl
on_list-nil (some code) = refl

asn_listed-nil : (asn : Option ℕ) → asn_listed asn [] ≡ false
asn_listed-nil none = refl
asn_listed-nil (some asn) = refl

region_listed-nil :
    (to_uppercase : Text → Text) (country subdivision : Option Text)
    → region_listed to_uppercase country subdivision [] ≡ false
unfolding region_listed blocked_regions find_region lookup
region_listed-nil to_uppercase none subdivision = refl
region_listed-nil to_uppercase (some country) subdivision = on_list-nil subdivision

nil_of_length : {A : Type 0} (xs : List A) → not (length xs == 0) ≡ false → xs ≡ []
nil_of_length [] e = refl
nil_of_length (x ∷ xs) e = absurd (ground arith)

module _ {Net4 Addr4 Net6 Addr6 : Type 0} (set4 : PrefixSet Net4 Addr4)
    (set6 : PrefixSet Net6 Addr6) where
  -- The place of an address is on no list of blocked ones, and on that of the admitted countries.
  unfoldable pub is_admitted : {F : Type 0} → (Text → Text) → WafRules set4 set6 → GeoInfo F → Bool
  unfolding region_listed
  is_admitted to_uppercase rules geo =
      not (asn_listed geo.asn rules.asn_blacklist)
      && (country_admitted geo.country_code rules.country_whitelist
          && (not (on_list geo.country_code rules.country_blacklist)
              && (not (on_list geo.continent_code rules.continent_blacklist)
                  && not (
                      region_listed to_uppercase geo.country_code geo.subdivision_code
                        rules.region_blacklist))))

  check_asn-is_some :
      (rules : WafRules set4 set6) (asn : Option ℕ)
      → is_some (check_asn set4 set6 rules asn) ≡ asn_listed asn rules.asn_blacklist
  unfolding check_asn
  check_asn-is_some rules none = refl
  check_asn-is_some rules (some asn) = ground arith

  check_blacklist-is_some :
      (kind : Text) (listed : List Text) (code : Option Text)
      → is_some (check_blacklist set4 set6 kind listed code) ≡ on_list code listed
  unfolding check_blacklist
  check_blacklist-is_some kind listed none = refl
  check_blacklist-is_some kind listed (some code) = ground arith

  check_country_whitelist-is_some :
      (rules : WafRules set4 set6) (country : Option Text)
      → is_some (check_country_whitelist set4 set6 rules country)
        ≡ not (country_admitted country rules.country_whitelist)
  unfolding check_country_whitelist
  check_country_whitelist-is_some rules none = ground arith
  check_country_whitelist-is_some rules (some country) = ground arith

  check_region-is_some :
      (to_uppercase : Text → Text) (rules : WafRules set4 set6) (country subdivision : Option Text)
      → is_some (check_region set4 set6 to_uppercase rules country subdivision)
        ≡ region_listed to_uppercase country subdivision rules.region_blacklist
  unfolding check_region region_listed
  check_region-is_some to_uppercase rules none subdivision = refl
  check_region-is_some to_uppercase rules (some country) none = refl
  check_region-is_some to_uppercase rules (some country) (some sub) =
      elim (Option-cases (blocked_regions (to_uppercase country) rules.region_blacklist)) [
        | inl e ↦ rw (e, check_region) refl
        | inr (regions, e) ↦ rw (e, check_region) (ground arith)
      ]

  pub check_geo-is_some :
      {F : Type 0} (to_uppercase : Text → Text) (rules : WafRules set4 set6) (geo : GeoInfo F)
      → is_some (check_geo set4 set6 to_uppercase rules geo)
        ≡ not (is_admitted to_uppercase rules geo)
  unfolding check_geo is_admitted
  check_geo-is_some to_uppercase rules geo =
      let asn = check_asn-is_some rules geo.asn in
      let whitelist = check_country_whitelist-is_some rules geo.country_code in
      let country =
        check_blacklist-is_some (codes "country") rules.country_blacklist geo.country_code in
      let continent =
        check_blacklist-is_some (codes "continent") rules.continent_blacklist geo.continent_code in
      let region = check_region-is_some to_uppercase rules geo.country_code geo.subdivision_code in
      rw
        (
          is_some-or_else, is_some-or_else, is_some-or_else, is_some-or_else, asn, whitelist,
          country, continent, region,
        )
        (ground arith)

  -- Rules that need no database admit every place.
  pub is_admitted_of_needs_geo :
      {F : Type 0} (to_uppercase : Text → Text) (rules : WafRules set4 set6) (geo : GeoInfo F)
      → needs_geo set4 set6 rules ≡ false
      → is_admitted to_uppercase rules geo ≡ true
  unfolding needs_geo is_admitted
  is_admitted_of_needs_geo to_uppercase rules geo e =
      let asn = nil_of_length rules.asn_blacklist (ground (arith, e)) in
      let admitted = nil_of_length rules.country_whitelist (ground (arith, e)) in
      let country = nil_of_length rules.country_blacklist (ground (arith, e)) in
      let region = nil_of_length rules.region_blacklist (ground (arith, e)) in
      let continent = nil_of_length rules.continent_blacklist (ground (arith, e)) in
      rw
        (
          asn,
          admitted,
          country,
          region,
          continent,
          asn_listed-nil geo.asn,
          on_list-nil geo.country_code,
          on_list-nil geo.continent_code,
          region_listed-nil to_uppercase geo.country_code geo.subdivision_code,
        )
        refl
