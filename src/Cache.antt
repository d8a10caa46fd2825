-- ===== src/Cache.antt =====
-- The caching policy of the CDN: crates/cdn-cache/src/strategy.rs and key.rs, over the configuration
-- of crates/cdn-common/src/types.rs. Regexes is the cache of compiled patterns, Rules the choice of
-- a TTL by the site's rules, Directives the TTL of the response headers, Decisions the two checks
-- of a request and a response, Key the cache key and the object path. Longest and Chosen prove Rules.
pub mod Regexes
pub mod Rules
pub mod Longest
pub mod Chosen
pub mod Directives
pub mod Decisions
pub mod Key
pub mod Sorting
pub mod Paths
mod Tests
use nozdormu.Prelude.{ℕ, Option, List, Bool}
use nozdormu.Prelude.Text.{Text}

-- `CacheRuleType`
pub data RuleType : Type 0 where
  by_path by_extension by_mimetype by_regex : RuleType

-- What `as_str` and `as_array` see of the JSON value in a rule's `match`: a string, an array (an
-- element that is no string is `none`), or neither.
pub data Value : Type 0 where
  string : Text → Value
  array : List (Option Text) → Value
  other : Value

-- `CacheRule`
pub record CacheRule : Type 0 where
  pub type : RuleType
  pub pattern : Value
  pub ttl : ℕ
  pub ttl_unit : Text
  pub regex_options : Option Text

-- `CacheConfig`
pub record CacheConfig : Type 0 where
  pub enabled : Bool
  pub default_ttl : ℕ
  pub max_size : ℕ
  pub rules : List CacheRule
  pub sort_query_string : Bool
  pub vary_headers : List Text
  pub cache_authorized : Bool
  pub cache_cookies : Bool
