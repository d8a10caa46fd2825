-- ===== src/Redirect/Engine.antt =====
-- The three tiers of redirects: cdn-middleware/src/redirect/mod.rs.
use nozdormu.Prelude.{ℕ, Option, none, some, List, []}
use nozdormu.Prelude.Text.{Text}
use nozdormu.Cache.Regexes.{RegexCache}
use nozdormu.Redirect.{
  DomainRedirectConfig, ForceHttpsConfig, Redirect, check_domain_redirect, check_protocol_redirect,
}
use nozdormu.Redirect.Url.{UrlRedirectRule, RequestInfo, UrlRedirectResult, check_url_rules}

pub data RedirectSource : Type 0 where
  from_domain from_protocol from_url_rule : RedirectSource

pub record RedirectResult : Type 0 where
  pub target_url : Text
  pub status_code : ℕ
  pub source : RedirectSource
  pub cache_control : Option Text
  pub response_headers : List (Text × Text)

-- The result of the first two tiers
abbrev pub of_site : RedirectSource → Redirect → RedirectResult
of_site source r = record {
  target_url = r.target_url;
  status_code = r.status_code;
  source = source;
  cache_control = none;
  response_headers = [];
}

abbrev pub of_rule : UrlRedirectResult → RedirectResult
of_rule r = record {
  target_url = r.target_url;
  status_code = r.status_code;
  source = from_url_rule;
  cache_control = r.cache_control;
  response_headers = r.response_headers;
}

unfoldable pub check_domain : RequestInfo → Option DomainRedirectConfig → Option Redirect
unfolding check_domain_redirect
check_domain req none = none
check_domain req (some config) = check_domain_redirect req.host req.scheme req.uri config

-- The first two tiers
unfoldable pub check_site :
    RequestInfo → Option DomainRedirectConfig → ForceHttpsConfig → Option RedirectResult
unfolding check_domain check_protocol_redirect
check_site req domain_redirect force_https = elim (check_domain req domain_redirect) [
  | some r ↦ some (of_site from_domain r)
  | none ↦ elim (check_protocol_redirect req.scheme req.host req.uri force_https) [
    | some r ↦ some (of_site from_protocol r)
    | none ↦ none
  ]
]

module _ {Re : Type 0} (compile : Text → Option Re)
    (captures : Re → Text → Option (List Text)) where
  unfoldable pub check_redirect :
      RequestInfo
      → Option DomainRedirectConfig
      → ForceHttpsConfig
      → List UrlRedirectRule
      → RegexCache Re
      → Option (Option RedirectResult × RegexCache Re)
  unfolding check_site check_url_rules
  check_redirect req domain_redirect force_https url_rules cache =
      elim (check_site req domain_redirect force_https) [
        | some r ↦ some (some r, cache)
        | none ↦ elim (check_url_rules compile captures req url_rules cache) [
          | none ↦ none
          | some (none, cache') ↦ some (none, cache')
          | some (some r, cache') ↦ some (some (of_rule r), cache')
        ]
      ]
