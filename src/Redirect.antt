-- ===== src/Redirect.antt =====
-- Redirects of whole sites: cdn-middleware/src/redirect/domain.rs and protocol.rs, with their
-- configuration from cdn-common/src/types.rs. The child Url has the rules of url.rs, Engine the three
-- tiers of mod.rs; the other children prove.
mod Url
mod Engine
mod Patterns
mod Settling
mod Sanitizing
mod Tests
use nozdormu.Prelude.{
  ℕ, Bool, true, false, ◌&&◌, not, Option, none, some, List, [], ◌∷◌, ◌++◌, any, last?, ◌==◌,
  if◌then◌else◌, length,
}
use nozdormu.Prelude.Text.{
  first_or, strip_suffix, Text, codes, text_eq, strip_prefix, starts_with, lower,
  eq_ignore_ascii_case, split,
}
use nozdormu.Prelude.Decimal.{format}
use mathlib.Core.List.{reverse}

pub record DomainRedirectConfig : Type 0 where
  pub enabled : Bool
  pub target_domain : Text
  pub source_domains : List Text
  pub status_code : ℕ

pub record ForceHttpsConfig : Type 0 where
  pub enable : Bool
  pub redirect_code : ℕ
  pub https_port : Option ℕ
  pub exclude_paths : List Text

-- A redirect of a domain or of the protocol
pub record Redirect : Type 0 where
  pub target_url : Text
  pub status_code : ℕ

unfoldable pub host_no_port : Text → Text
unfolding split
host_no_port host = first_or (split b':' host) host

abbrev pub is_dot : Option ℕ → Bool
is_dot none = false
is_dot (some c) = c == b'.'

-- The host ends with the suffix, after at least a dot, in any letter case.
unfoldable pub is_subdomain : Text → Text → Bool
is_subdomain suffix host = elim (strip_suffix (lower suffix) (lower host)) [
  | some rest ↦ is_dot (last? rest)
  | none ↦ false
]

unfoldable pub matches_source : Text → Text → Bool
unfolding is_subdomain
matches_source host src = elim (strip_prefix (codes "*.") src) [
  | some suffix ↦ is_subdomain suffix host
  | none ↦ eq_ignore_ascii_case host src
]

-- `source_domains` is empty, or one of them matches.
unfoldable pub is_source : Text → List Text → Bool
unfolding matches_source
is_source host [] = true
is_source host (src ∷ srcs) = any (matches_source host) (src ∷ srcs)

-- `{scheme}://{host}{uri}`
abbrev pub url_of : Text → Text → Text → Text
url_of scheme host uri = scheme ++ (codes "://" ++ (host ++ uri))

unfoldable pub check_domain_redirect : Text → Text → Text → DomainRedirectConfig → Option Redirect
unfolding host_no_port is_source
check_domain_redirect host scheme uri config =
    if config.enabled
    then if eq_ignore_ascii_case (host_no_port host) config.target_domain
      then none
      else if is_source (host_no_port host) config.source_domains
      then some (record {
        target_url = url_of scheme config.target_domain uri;
        status_code = config.status_code;
      })
      else none
    else none

-- The host of the redirect, with a port that is not the standard one
unfoldable pub https_host : Text → Option ℕ → Text
unfolding host_no_port
https_host host none = host_no_port host
https_host host (some port) =
    if port == 443 then host_no_port host else host_no_port host ++ (b':' ∷ format port)

unfoldable pub is_excluded : Text → List Text → Bool
unfolding split
is_excluded uri exclude_paths =
    let path = first_or (split b'?' uri) uri in
    any (λ p. starts_with p path) (codes "/.well-known/acme-challenge/" ∷ exclude_paths)

unfoldable pub check_protocol_redirect : Text → Text → Text → ForceHttpsConfig → Option Redirect
unfolding https_host is_excluded
check_protocol_redirect scheme host uri config =
    if config.enable
    then if text_eq scheme (codes "https")
      then none
      else if is_excluded uri config.exclude_paths
      then none
      else some (record {
        target_url = url_of (codes "https") (https_host host config.https_port) uri;
        status_code = config.redirect_code;
      })
    else none
