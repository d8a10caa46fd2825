-- ===== src/Redirect/Tests.antt =====
-- The theorems on the redirects at concrete inputs.
use nozdormu.Prelude.{ℕ, ◌≡◌, refl, true, false, Option, none, some, [], ◌∷◌, arith}
use nozdormu.Prelude.Text.{codes}
use nozdormu.Cache.Regexes.{RegexCache}
use nozdormu.Redirect.{DomainRedirectConfig, ForceHttpsConfig, check_domain_redirect}
use nozdormu.Redirect.Url.{
  UrlRedirectRule, UrlRedirectResult, RequestInfo, prefix, check_url_rules, replace,
}
use nozdormu.Redirect.Patterns.{Covered}
use nozdormu.Redirect.Sanitizing.{IsClean?, check_url_rules-IsClean}
use nozdormu.Redirect.Settling.{Settles, check_site-Settles}

abbrev to_new : DomainRedirectConfig
to_new = record {
  enabled = true;
  target_domain = codes "new.org";
  source_domains = codes "*.old.org" ∷ [];
  status_code = 301;
}

abbrev always_https : ForceHttpsConfig
always_https = record {
  enable = true;
  redirect_code = 301;
  https_port = some 8443;
  exclude_paths = [];
}

abbrev old_request : RequestInfo
old_request = record {
  scheme = codes "http";
  host = codes "www.old.org:80";
  uri = codes "/a?b";
  path = codes "/a";
  query_string = some (codes "b");
  method = codes "GET";
}

check_site-Settles_example : Settles 2 old_request (some to_new) always_https
check_site-Settles_example =
    check_site-Settles old_request (some to_new) always_https (ground arith)

abbrev move : UrlRedirectRule
move = record {
  rule_type = prefix;
  source = some (codes "/a");
  source_domain = none;
  target = codes "https://new.org/x$1?from=$host";
  status_code = 302;
  enabled = true;
  preserve_query_string = true;
  methods = [];
  match_query_string = false;
  regex_options = none;
  cache_control = none;
  response_headers = [];
}

abbrev no_cache : RegexCache ℕ
no_cache = record { entries = []; order = [] }

check_url_rules-IsClean_example :
    (result : Option UrlRedirectResult) × (cache' : RegexCache ℕ) × (check_url_rules
        (λ p. some 7)
        (λ re s. none)
        old_request
        (move ∷ [])
        no_cache
      ≡ some (result, cache'))
    × Covered cache'.entries cache'.order
    × IsClean? result
check_url_rules-IsClean_example =
    check_url_rules-IsClean (λ p. some 7) (λ re s. none) old_request (move ∷ []) no_cache
      (ground arith) (ground arith) (ground arith) tt

-- Each occurrence is replaced, from the left.
replace_run : replace (codes "$1") (codes "xy") (codes "a$1$1$b") ≡ codes "axyxy$b"
unfolding replace
replace_run = refl

-- A target domain with a port is redirected to itself.
target_with_port :
    check_domain_redirect
      (codes "new.org:81")
      (codes "http")
      (codes "/")
      (record to_new { target_domain = codes "new.org:81"; source_domains = [] })
    ≡ some (record { target_url = codes "http://new.org:81/"; status_code = 301 })
unfolding check_domain_redirect
target_with_port = refl
