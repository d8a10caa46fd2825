-- ===== src/Waf/Tests.antt =====
-- The theorem on the firewall at a concrete input.
use nozdormu.Prelude.{
  ℕ, ◌/◌, ◌≡◌, refl, true, ◌||◌, Option, none, some, List, [], ◌∷◌, is_some, ◌==◌, if◌then◌else◌,
  arith,
}
use nozdormu.Prelude.Text.{codes}
use nozdormu.Waf.{
  PrefixSet, block, blocked, GeoInfo, addr_v4, net_v4, WafRules, WafConfig, check_with_sets,
}
use nozdormu.Waf.Body.{BodyInspectionConfig}

-- Blocks of 256 addresses
find_block : ℕ → List ℕ → Option ℕ
find_block a [] = none
find_block a (n ∷ ns) = if a / 256 == n then some n else find_block a ns

find_block-insert :
    (a n : ℕ) (ns : List ℕ)
    → is_some (find_block a (n ∷ ns)) ≡ (a / 256 == n || is_some (find_block a ns))
unfolding find_block
find_block-insert a n ns = ground arith

blocks : PrefixSet ℕ ℕ
unfolding find_block
blocks = record {
  Set = List ℕ;
  empty = [];
  insert = λ n s. n ∷ s;
  get_lpm = find_block;
  covers = λ a n. a / 256 == n;
  get_lpm-empty = λ a. refl;
  get_lpm-insert = find_block-insert;
}

abbrev rules : WafRules blocks blocks
rules = record {
  ip_whitelist = net_v4 5 ∷ [];
  ip_blacklist = net_v4 7 ∷ [];
  asn_blacklist = [];
  country_whitelist = [];
  country_blacklist = codes "XX" ∷ [];
  region_blacklist = [];
  continent_blacklist = [];
}

abbrev waf : WafConfig blocks blocks
waf = record { enabled = true; mode = block; rules = rules }

abbrev geo : GeoInfo ℕ
geo = record {
  country_code = some (codes "xx");
  country_name = none;
  continent_code = none;
  subdivision_code = none;
  subdivision_name = none;
  city_name = none;
  asn = some 64500;
  asn_org = none;
  latitude = none;
  longitude = none;
}

country_run :
    (check_with_sets blocks blocks
      (λ s. s)
      (λ a. [])
      (λ n. [])
      (λ a. geo)
      (addr_v4 1000)
      waf
      none
      none).0
    ≡ blocked (codes "country_blacklist") (codes "country xx is blacklisted")
unfolding check_with_sets blocks
country_run = refl

abbrev images_only : BodyInspectionConfig
images_only = record {
  enabled = true;
  max_body_size = 100;
  allowed_content_types = codes "image/*" ∷ [];
  blocked_content_types = codes "image/gif" ∷ [];
  inspect_methods = codes "POST" ∷ [];
}
