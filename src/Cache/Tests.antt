-- ===== src/Cache/Tests.antt =====
-- Runs of the caching policy, and its theorems at inputs that meet their hypotheses. The patterns of
-- this test's engine are plain texts, found anywhere in the path.
use nozdormu.Prelude.{
  ℕ, ◌≡◌, ◌↔◌, refl, Bool, true, false, Option, none, some, List, [], ◌∷◌, arith, take,
}
use mathlib.Core.List.{Permᴰ}
use nozdormu.Prelude.Text.{Text, codes, contains, split}
use nozdormu.Cache.{CacheConfig, CacheRule, by_path, by_extension, by_regex, string}
use nozdormu.Cache.Regexes.{
  RegexCache, IsValid, get_or_compile_regex, get_or_compile_regex-transparent,
}
use nozdormu.Cache.Chosen.{Decides, Returns, match_rule_ttl-Decides}
use nozdormu.Cache.Rules.{match_rule_ttl}
use nozdormu.Cache.Directives.{ℤ, adjust_ttl}
use nozdormu.Cache.Decisions.{
  CacheDecision, check_request_cacheability, IsDecision, check_request_cacheability-IsDecision,
  check_response_cacheability, check_response_cacheability_iff, AllowsResponse,
}
use nozdormu.Cache.Key.{sort_query, safe_site_id, cache_object_path}
use nozdormu.Cache.Sorting.{sort_query-canonical}
use nozdormu.Cache.Paths.{cache_object_path-IsSafe, IsSafe}

compile : Text → Option Text
compile p = some p

is_match : Text → Text → Bool
is_match re path = contains re path

abbrev empty : RegexCache Text
empty = record { entries = []; order = [] }

empty-IsValid : IsValid compile empty
empty-IsValid = (tt, ground arith)

abbrev site_rules : List CacheRule
site_rules =
    record {
      type = by_regex;
      pattern = string (codes "api");
      ttl = 2;
      ttl_unit = codes "seconds";
      regex_options = none;
    }
    ∷ record {
      type = by_extension;
      pattern = string (codes "css");
      ttl = 1;
      ttl_unit = codes "hours";
      regex_options = none;
    }
    ∷ record {
      type = by_path;
      pattern = string (codes "/static");
      ttl = 5;
      ttl_unit = codes "minutes";
      regex_options = none;
    }
    ∷ []

abbrev config : CacheConfig
config = record {
  enabled = true;
  default_ttl = 60;
  max_size = 1000;
  rules = site_rules;
  sort_query_string = true;
  vary_headers = [];
  cache_authorized = false;
  cache_cookies = false;
}

ttls :
    (match_rule_ttl compile is_match (codes "/static/a.css") site_rules 60 empty
      ≡ some (300, empty))
    × (match_rule_ttl compile is_match (codes "/b.CSS") site_rules 60 empty ≡ some (3600, empty))
    × (match_rule_ttl compile is_match (codes "/api/x") site_rules 60 empty
        ≡ some (2, record { entries = (codes "api", codes "api") ∷ []; order = codes "api" ∷ [] }))
unfolding match_rule_ttl compile is_match get_or_compile_regex
ttls = (refl, refl, refl)

never : Text → Option ℤ
never date = none

ages :
    (adjust_ttl never 600 (some (codes "public, Max-Age=30, s-maxage=20")) none ≡ 20)
    × (adjust_ttl never 10 (some (codes "max-age=30")) none ≡ 10)
unfolding adjust_ttl never
ages = (refl, refl)

sorted_query : sort_query (codes "b=2&a=1&a=0") ≡ codes "a=0&a=1&b=2"
unfolding sort_query
sorted_query = refl

object_paths :
    (cache_object_path (codes "s1") (codes "ab12") ≡ some (codes "cache/s1/ab/ab12"))
    × (cache_object_path (codes "../s") (codes "ab12") ≡ some (codes "cache/_invalid_/ab/ab12"))
unfolding cache_object_path
object_paths = (refl, refl)

get_or_compile_regex-transparent_example :
    (cache' : RegexCache Text) × (get_or_compile_regex compile (codes "a+") empty
      ≡ some (compile (codes "a+"), cache'))
    × IsValid compile cache'
get_or_compile_regex-transparent_example =
    get_or_compile_regex-transparent compile (codes "a+") empty empty-IsValid

match_rule_ttl-Decides_example :
    (ttl : ℕ) × Decides compile is_match (codes "/api/x") site_rules 60 ttl
    × Returns compile is_match
        (codes "/api/x")
        (match_rule_ttl compile is_match (codes "/api/x") site_rules 60 empty)
        ttl
match_rule_ttl-Decides_example =
    match_rule_ttl-Decides compile is_match (codes "/api/x") site_rules 60 empty empty-IsValid

check_request_cacheability-IsDecision_example :
    (ttl : ℕ) × Decides compile is_match (codes "/api/x") config.rules config.default_ttl ttl
    × ((d : CacheDecision) × IsDecision compile is_match (codes "GET") none false config ttl d
        × Returns compile is_match
            (codes "/api/x")
            (check_request_cacheability compile is_match
              (codes "GET")
              (codes "/api/x")
              none
              false
              config
              empty)
            d)
check_request_cacheability-IsDecision_example =
    check_request_cacheability-IsDecision compile is_match (codes "GET") (codes "/api/x") none false
      config empty empty-IsValid

check_response_cacheability_iff_example :
    ((check_response_cacheability 200 none false none (some 10) config).cacheable ≡ true
      ↔ AllowsResponse 200 none false none (some 10) config)
    × ((check_response_cacheability 200 none false none (some 10) config).ttl ≡ 0)
check_response_cacheability_iff_example =
    check_response_cacheability_iff 200 none false none (some 10) config

sort_query-canonical_example :
    (sort_query (codes "b=2&a=1") ≡ sort_query (codes "a=1&b=2"))
    ↔ Permᴰ (split b'&' (codes "b=2&a=1")) (split b'&' (codes "a=1&b=2"))
sort_query-canonical_example = sort_query-canonical (codes "b=2&a=1") (codes "a=1&b=2")

cache_object_path-IsSafe_example :
    (p : Text) × (cache_object_path (codes "../x") (codes "ab12") ≡ some p)
    × (split b'/' p
        ≡ codes "cache" ∷ safe_site_id (codes "../x") ∷ take 2 (codes "ab12") ∷ codes "ab12" ∷ [])
    × IsSafe (safe_site_id (codes "../x"))
    × (IsSafe (codes "../x") → safe_site_id (codes "../x") ≡ codes "../x")
cache_object_path-IsSafe_example =
    cache_object_path-IsSafe (codes "../x") (codes "ab12") (ground arith) (ground arith)
