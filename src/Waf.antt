-- ===== src/Waf.antt =====
-- The web application firewall's checks of addresses: cdn-middleware/src/waf/ip.rs and mod.rs, with
-- the configuration from cdn-common/src/types.rs. The prefix-trie crate is the interface `PrefixSet`;
-- the display of addresses, Unicode's upper case and the answer of the GeoIP databases are parameters.
-- Logs and metrics are left out. The children prove.
mod Sets
mod Places
mod Chain
mod Geo
mod Body
mod Tests
use nozdormu.Prelude.{
  ℕ, ◌≡◌, Bool, true, false, ◌||◌, not, Option, none, some, List, [], ◌∷◌, ◌++◌, any, is_some, ◌==◌,
  if◌then◌else◌, length, unwrap_or,
}
use nozdormu.Prelude.Text.{Text, codes, eq_ignore_ascii_case}
use nozdormu.Prelude.Decimal.{format}
use nozdormu.Prelude.Map.{lookup}

-- `PrefixSet`: the prefixes that were inserted, and a longest one that covers an address
pub record PrefixSet (Net Addr : Type 0) : Type 1 where
  pub Set : Type 0
  pub empty : Set
  pub insert : Net → Set → Set
  pub get_lpm : Addr → Set → Option Net
  pub covers : Addr → Net → Bool
  pub get_lpm-empty : (a : Addr) → get_lpm a empty ≡ none
  pub get_lpm-insert :
      (a : Addr) (n : Net) (s : Set)
      → is_some (get_lpm a (insert n s)) ≡ (covers a n || is_some (get_lpm a s))

pub data WafMode : Type 0 where
  block log : WafMode

-- The type of the block, and the reason
pub data WafResult : Type 0 where
  allow : WafResult
  blocked logged : Text → Text → WafResult

pub record GeoInfo (F : Type 0) : Type 0 where
  pub country_code : Option Text
  pub country_name : Option Text
  pub continent_code : Option Text
  pub subdivision_code : Option Text
  pub subdivision_name : Option Text
  pub city_name : Option Text
  pub asn : Option ℕ
  pub asn_org : Option Text
  pub latitude : Option F
  pub longitude : Option F

unfoldable pub make_result : WafMode → Text × Text → WafResult
make_result block (block_type, reason) = blocked block_type reason
make_result log (block_type, reason) = logged block_type reason

abbrev pub is_listed : Text → List Text → Bool
is_listed code codes_listed = any (λ w. eq_ignore_ascii_case w code) codes_listed

-- The first entry whose key is equal but for the case of letters
unfoldable pub find_region : Text → List (Text × List Text) → Option (List Text)
find_region code [] = none
find_region code ((k, regions) ∷ rest) =
    if eq_ignore_ascii_case k code then some regions else find_region code rest

-- `get`, or else the search
unfoldable pub blocked_regions : Text → List (Text × List Text) → Option (List Text)
unfolding lookup find_region
blocked_regions code regions = elim (lookup code regions) [
  | some found ↦ some found
  | none ↦ find_region code regions
]

-- The first of two objections
abbrev pub or_else : Option (Text × Text) → Option (Text × Text) → Option (Text × Text)
or_else none later = later
or_else (some objection) later = some objection

module _ {Net4 Addr4 Net6 Addr6 : Type 0} (set4 : PrefixSet Net4 Addr4)
    (set6 : PrefixSet Net6 Addr6) where
  pub data IpAddr : Type 0 where
    addr_v4 : Addr4 → IpAddr
    addr_v6 : Addr6 → IpAddr

  pub data IpNet : Type 0 where
    net_v4 : Net4 → IpNet
    net_v6 : Net6 → IpNet

  pub record IpCidrSet : Type 0 where
    pub v4 : set4.Set
    pub v6 : set6.Set

  pub record WafRules : Type 0 where
    pub ip_whitelist : List IpNet
    pub ip_blacklist : List IpNet
    pub asn_blacklist : List ℕ
    pub country_whitelist : List Text
    pub country_blacklist : List Text
    pub region_blacklist : List (Text × List Text)
    pub continent_blacklist : List Text

  pub record WafConfig : Type 0 where
    pub enabled : Bool
    pub mode : WafMode
    pub rules : WafRules

  unfoldable pub insert_all : List IpNet → IpCidrSet → IpCidrSet
  insert_all [] s = s
  insert_all (net_v4 n ∷ cidrs) s = insert_all cidrs (record s { v4 = set4.insert n s.v4 })
  insert_all (net_v6 n ∷ cidrs) s = insert_all cidrs (record s { v6 = set6.insert n s.v6 })

  unfoldable pub new : List IpNet → IpCidrSet
  unfolding insert_all
  new cidrs = insert_all cidrs (record { v4 = set4.empty; v6 = set6.empty })

  unfoldable pub contains : IpAddr → IpCidrSet → Bool
  contains (addr_v4 a) s = is_some (set4.get_lpm a s.v4)
  contains (addr_v6 a) s = is_some (set6.get_lpm a s.v6)

  unfoldable pub longest_match : IpAddr → IpCidrSet → Option IpNet
  longest_match (addr_v4 a) s = elim (set4.get_lpm a s.v4) [
    | some n ↦ some (net_v4 n)
    | none ↦ none
  ]
  longest_match (addr_v6 a) s = elim (set6.get_lpm a s.v6) [
    | some n ↦ some (net_v6 n)
    | none ↦ none
  ]

  unfoldable pub needs_geo : WafRules → Bool
  needs_geo rules =
      not (length rules.asn_blacklist == 0)
      || (not (length rules.country_whitelist == 0)
          || (not (length rules.country_blacklist == 0)
              || (not (length rules.region_blacklist == 0)
                  || not (length rules.continent_blacklist == 0))))

  -- Step 3
  unfoldable pub check_asn : WafRules → Option ℕ → Option (Text × Text)
  check_asn rules none = none
  check_asn rules (some asn) =
      if any (λ a. a == asn) rules.asn_blacklist
      then some (codes "asn_blacklist", codes "ASN " ++ (format asn ++ codes " is blacklisted"))
      else none

  -- Step 4
  unfoldable pub check_country_whitelist : WafRules → Option Text → Option (Text × Text)
  check_country_whitelist rules country_code =
      if length rules.country_whitelist == 0 then none else elim country_code [
        | none ↦
            some (codes "country_whitelist", codes "country unknown, whitelist active — denied")
        | some country ↦
            if is_listed country rules.country_whitelist
            then none
            else some (
              codes "country_whitelist",
              codes "country " ++ (country ++ codes " not in whitelist"),
            )
      ]

  -- Steps 5 and 5.5: the kind of the list, the list and the code
  unfoldable pub check_blacklist : Text → List Text → Option Text → Option (Text × Text)
  check_blacklist kind listed none = none
  check_blacklist kind listed (some code) =
      if is_listed code listed
      then some (kind ++ codes "_blacklist", kind ++ (b' ' ∷ (code ++ codes " is blacklisted")))
      else none

  module _ (to_uppercase : Text → Text) where
    -- Step 6
    unfoldable pub check_region : WafRules → Option Text → Option Text → Option (Text × Text)
    unfolding blocked_regions
    check_region rules none subdivision = none
    check_region rules (some country) none = none
    check_region rules (some country) (some sub) =
        elim (blocked_regions (to_uppercase country) rules.region_blacklist) [
          | none ↦ none
          | some regions ↦
              if is_listed sub regions
              then some (
                codes "region_blacklist",
                codes "region " ++ (country ++ (b'-' ∷ (sub ++ codes " is blacklisted"))),
              )
              else none
        ]

    -- Steps 3 to 6: the first objection
    unfoldable pub check_geo : {F : Type 0} → WafRules → GeoInfo F → Option (Text × Text)
    unfolding check_asn check_country_whitelist check_blacklist check_region
    check_geo rules geo = or_else (check_asn rules geo.asn) (
        or_else (check_country_whitelist rules geo.country_code) (
          or_else (check_blacklist (codes "country") rules.country_blacklist geo.country_code) (
            or_else
              (check_blacklist (codes "continent") rules.continent_blacklist geo.continent_code)
              (check_region rules geo.country_code geo.subdivision_code))))

    module _ {F : Type 0} (show_addr : IpAddr → Text) (show_net : IpNet → Text)
        (geo_lookup : IpAddr → GeoInfo F) where
      -- Steps 3 to 6 with what the databases say
      unfoldable pub check_location : IpAddr → WafConfig → WafResult × Option (GeoInfo F)
      unfolding check_geo make_result
      check_location client_ip waf =
          let geo = geo_lookup client_ip in
          elim (check_geo waf.rules geo) [
            | some objection ↦ (make_result waf.mode objection, some geo)
            | none ↦ (allow, some geo)
          ]

      unfoldable pub check_with_sets :
          IpAddr → WafConfig → Option IpCidrSet → Option IpCidrSet → WafResult × Option (GeoInfo F)
      unfolding new contains longest_match needs_geo check_location make_result
      check_with_sets client_ip waf whitelist blacklist =
          let allowed = unwrap_or whitelist (new waf.rules.ip_whitelist) in
          let denied = unwrap_or blacklist (new waf.rules.ip_blacklist) in
          if waf.enabled
          then if contains client_ip allowed
            then (allow, none)
            else elim (longest_match client_ip denied) [
              | some cidr ↦ (
                make_result waf.mode (
                  codes "ip_blacklist",
                  codes "IP "
                      ++ (show_addr client_ip ++ (codes " matched blacklist " ++ show_net cidr)),
                ),
                none,
              )
              | none ↦ if needs_geo waf.rules then check_location client_ip waf else (allow, none)
            ]
          else (allow, none)
