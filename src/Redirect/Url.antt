-- ===== src/Redirect/Url.antt =====
-- The rules on URLs: cdn-middleware/src/redirect/url.rs. The regex crate is the parameters `compile`
-- and `captures`, the groups of a match from the first on, a missing one as the empty text. The
-- thread-local cache of patterns is passed explicitly; `none` is a loop that never ends.
use nozdormu.Prelude.{
  ℕ, zero, suc, ◌+◌, ◌-◌, Bool, ◌&&◌, ◌||◌, not, Option, none, some, List, [], ◌∷◌, ◌++◌, any, ◌==◌,
  if◌then◌else◌, length, take, filter, unwrap_or,
}
use nozdormu.Prelude.Text.{
  Text, codes, text_eq, strip_prefix, starts_with, contains_char, eq_ignore_ascii_case,
}
use nozdormu.Prelude.Map.{lookup, insert}
use nozdormu.Prelude.Decimal.{format}
use nozdormu.Cache.Regexes.{RegexCache, evict, store}
use nozdormu.Redirect.{host_no_port, is_subdomain}

pub data UrlRuleType : Type 0 where
  exact prefix regex domain : UrlRuleType

pub record UrlRedirectRule : Type 0 where
  pub rule_type : UrlRuleType
  pub source : Option Text
  pub source_domain : Option Text
  pub target : Text
  pub status_code : ℕ
  pub enabled : Bool
  pub preserve_query_string : Bool
  pub methods : List Text
  pub match_query_string : Bool
  pub regex_options : Option Text
  pub cache_control : Option Text
  pub response_headers : List (Text × Text)

pub record RequestInfo : Type 0 where
  pub scheme : Text
  pub host : Text
  pub uri : Text
  pub path : Text
  pub query_string : Option Text
  pub method : Text

pub record UrlRedirectResult : Type 0 where
  pub target_url : Text
  pub status_code : ℕ
  pub cache_control : Option Text
  pub response_headers : List (Text × Text)

-- `position` and `remove` of the first, then `push_back`
unfoldable pub promote : Text → List Text → List Text
promote pattern [] = []
promote pattern (k ∷ order) =
    let rest = promote pattern order in
    if text_eq k pattern then order ++ (pattern ∷ []) else k ∷ rest

module _ {Re : Type 0} (compile : Text → Option Re) where
  -- `get_or_compile_regex` of url.rs: a hit makes the pattern the last to be evicted.
  unfoldable pub get_or_compile_promoted : Text → RegexCache Re → Option (Option Re × RegexCache Re)
  unfolding evict store lookup insert promote
  get_or_compile_promoted pattern cache = elim (lookup pattern cache.entries) [
    | some re ↦ some (some re, record cache { order = promote pattern cache.order })
    | none ↦ elim (compile pattern) [
      | some re ↦ store pattern re (evict cache.entries cache.order)
      | none ↦ some (none, cache)
    ]
  ]

-- `str::replace` with a pattern that is not empty; the first argument counts the characters of an
-- occurrence that are left to pass.
unfoldable pub replace_from : ℕ → Text → Text → Text → Text
replace_from skip pattern value [] = []
replace_from (suc skip) pattern value (c ∷ s) = replace_from skip pattern value s
replace_from zero pattern value (c ∷ s) =
    let after = replace_from (length pattern - 1) pattern value s in
    let rest = replace_from 0 pattern value s in
    if starts_with pattern (c ∷ s) then value ++ after else c ∷ rest

unfoldable pub replace : Text → Text → Text → Text
unfolding replace_from
replace pattern value s = replace_from 0 pattern value s

abbrev pub is_safe_char : ℕ → Bool
is_safe_char c = not (c == 13) && (not (c == 10) && not (c == 0))

unfoldable pub sanitize_header_value : Text → Text
sanitize_header_value s = filter is_safe_char s

-- The captured groups, the highest number first
unfoldable pub replace_captures : ℕ → List Text → Text → Text
unfolding replace sanitize_header_value
replace_captures i [] result = result
replace_captures i (cap ∷ captures) result =
    replace (b'$' ∷ format (i + 1)) (sanitize_header_value cap)
      (replace_captures (i + 1) captures result)

-- The named variables, in order
unfoldable pub replace_all : List (Text × Text) → Text → Text
unfolding replace
replace_all [] result = result
replace_all ((name, value) ∷ rest) result = replace_all rest (replace name value result)

unfoldable pub variables : RequestInfo → List (Text × Text)
unfolding sanitize_header_value
variables req =
    let qs = unwrap_or req.query_string [] in
    (codes "$request_uri", sanitize_header_value req.uri)
    ∷ (codes "$query_string", sanitize_header_value qs)
    ∷ (codes "$server_name", sanitize_header_value req.host)
    ∷ (codes "$scheme", req.scheme)
    ∷ (codes "$host", sanitize_header_value req.host)
    ∷ (codes "$uri", sanitize_header_value req.path)
    ∷ (codes "$args", sanitize_header_value qs)
    ∷ []

unfoldable pub substitute_variables : Text → RequestInfo → List Text → Text
unfolding replace_captures replace_all variables
substitute_variables target req captures =
    replace_all (variables req) (replace_captures 0 captures target)

unfoldable pub append_query_string : Text → Option Text → Bool → Text
append_query_string target none preserve = target
append_query_string target (some []) preserve = target
append_query_string target (some (c ∷ qs)) preserve =
    if preserve
    then target ++ ((if contains_char b'?' target then b'&' else b'?') ∷ c ∷ qs)
    else target

unfoldable pub match_domain : Text → Text → Option (List Text)
unfolding host_no_port is_subdomain
match_domain host pattern = elim (strip_prefix (codes "*.") pattern) [
  | some suffix ↦
      if is_subdomain suffix (host_no_port host)
      then some (take (length (host_no_port host) - length suffix - 1) (host_no_port host) ∷ [])
      else none
  | none ↦ if eq_ignore_ascii_case (host_no_port host) pattern then some [] else none
]

-- The rule is enabled, and for the request's method.
unfoldable pub applies : RequestInfo → UrlRedirectRule → Bool
applies req rule =
    rule.enabled
    && (length rule.methods == 0 || any (λ m. eq_ignore_ascii_case m req.method) rule.methods)

unfoldable pub result_of : RequestInfo → UrlRedirectRule → List Text → UrlRedirectResult
unfolding substitute_variables append_query_string
result_of req rule captures = record {
  target_url =
      append_query_string (substitute_variables rule.target req captures) req.query_string
        rule.preserve_query_string;
  status_code = rule.status_code;
  cache_control = rule.cache_control;
  response_headers = rule.response_headers;
}

module _ {Re : Type 0} (compile : Text → Option Re)
    (captures : Re → Text → Option (List Text)) where
  -- What the rule captures of the request, if it matches
  unfoldable pub match_source :
      RequestInfo
      → UrlRedirectRule
      → Text
      → Text
      → UrlRuleType
      → RegexCache Re
      → Option (Option (List Text) × RegexCache Re)
  unfolding get_or_compile_promoted match_domain
  match_source req rule source input exact cache =
      some (if text_eq input source then some [] else none, cache)
  match_source req rule source input prefix cache = elim (strip_prefix source input) [
    | some remainder ↦ some (some (remainder ∷ []), cache)
    | none ↦ some (none, cache)
  ]
  match_source req rule source input regex cache =
      let flags = unwrap_or rule.regex_options [] in
      let pattern = if contains_char b'i' flags then codes "(?i)" ++ source else source in
      elim (get_or_compile_promoted compile pattern cache) [
        | none ↦ none
        | some (none, cache') ↦ some (none, cache')
        | some (some re, cache') ↦ some (captures re input, cache')
      ]
  match_source req rule source input domain cache =
      some (match_domain req.host (unwrap_or rule.source_domain source), cache)

  -- What one rule says
  unfoldable pub check_rule :
      RequestInfo → UrlRedirectRule → RegexCache Re → Option (Option (List Text) × RegexCache Re)
  unfolding applies match_source
  check_rule req rule cache =
      let source = unwrap_or rule.source (codes "/") in
      let input = if rule.match_query_string then req.uri else req.path in
      if applies req rule
      then match_source req rule source input rule.rule_type cache
      else some (none, cache)

  unfoldable pub check_url_rules :
      RequestInfo
      → List UrlRedirectRule
      → RegexCache Re
      → Option (Option UrlRedirectResult × RegexCache Re)
  unfolding check_rule result_of
  check_url_rules req [] cache = some (none, cache)
  check_url_rules req (rule ∷ rules) cache = elim (check_rule req rule cache) [
    | none ↦ none
    | some (some found, cache') ↦ some (some (result_of req rule found), cache')
    | some (none, cache') ↦ check_url_rules req rules cache'
  ]
