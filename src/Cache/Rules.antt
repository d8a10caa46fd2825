-- ===== src/Cache/Rules.antt =====
-- The TTL of a path by the site's rules: strategy.rs, `match_rule_ttl` and `rule_ttl_seconds`. The
-- matcher of the regex crate is the parameter `is_match`. A product wraps at 64 bits.
use nozdormu.Prelude.{
  ℕ, ◌*◌, ◌%◌, Bool, true, false, ◌&&◌, Option, none, some, List, [], ◌∷◌, ◌++◌, ltb, if◌then◌else◌,
  any, unwrap_or, ◌>>=◌,
}
use nozdormu.Prelude.Text.{
  Text, codes, text_eq, starts_with, contains_char, byte_len, eq_ignore_ascii_case, rsplit_once,
}
use nozdormu.Prelude.Decimal.{u64_mod}
use nozdormu.Cache.{
  RuleType, by_path, by_extension, by_mimetype, by_regex, Value, string, array, other, CacheRule,
}
use nozdormu.Cache.Regexes.{RegexCache, get_or_compile_regex}

abbrev pub is_type : RuleType → RuleType → Bool
is_type by_path by_path = true
is_type by_extension by_extension = true
is_type by_mimetype by_mimetype = true
is_type by_regex by_regex = true
is_type _ _ = false

abbrev pub as_str : Value → Option Text
as_str (string s) = some s
as_str _ = none

unfoldable pub rule_ttl_seconds : CacheRule → ℕ
rule_ttl_seconds rule =
    if text_eq rule.ttl_unit (codes "minutes")
    then rule.ttl * 60 % u64_mod
    else if text_eq rule.ttl_unit (codes "hours")
    then rule.ttl * 3600 % u64_mod
    else if text_eq rule.ttl_unit (codes "days")
    then rule.ttl * 86400 % u64_mod
    else rule.ttl

-- The length of a path rule's pattern, where it is a prefix of the path
unfoldable pub path_len : Text → CacheRule → Option ℕ
path_len path rule =
    if is_type rule.type by_path
    then (as_str rule.pattern >>= λ p. if starts_with p path then some (byte_len p) else none)
    else none

-- `best_path_match.map(|(l, _)| len > l).unwrap_or(true)`
abbrev pub beats : ℕ → Option (ℕ × ℕ) → Bool
beats n none = true
beats n (some (l, ttl)) = ltb l n

-- The first loop, from the best match so far
unfoldable pub best_path : Text → List CacheRule → Option (ℕ × ℕ) → Option (ℕ × ℕ)
best_path path [] best = best
best_path path (rule ∷ rules) best = best_path path rules (elim (path_len path rule) [
  | none ↦ best
  | some n ↦ if beats n best then some (n, rule_ttl_seconds rule) else best
])

unfoldable pub extension : Text → Text
unfolding rsplit_once
extension path = elim (rsplit_once b'.' path) [ none ↦ [] | some (before, after) ↦ after ]

unfoldable pub matches_extension : Text → Value → Bool
matches_extension ext (array es) =
    any (λ e. elim e [ none ↦ false | some s ↦ eq_ignore_ascii_case s ext ]) es
matches_extension ext (string s) = eq_ignore_ascii_case s ext
matches_extension ext other = false

-- The second loop
unfoldable pub extension_ttl : Text → List CacheRule → Option ℕ
unfolding matches_extension
extension_ttl ext [] = none
extension_ttl ext (rule ∷ rules) =
    let rest = extension_ttl ext rules in
    if is_type rule.type by_extension && matches_extension ext rule.pattern
    then some (rule_ttl_seconds rule)
    else rest

-- The pattern with its flag
abbrev pub with_flags : CacheRule → Text → Text
with_flags rule p =
    if contains_char b'i' (unwrap_or rule.regex_options []) then codes "(?i)" ++ p else p

module _ {Re : Type 0} (compile : Text → Option Re) (is_match : Re → Text → Bool) where
  -- Whether a pattern compiles and matches
  abbrev pub hits : Text → Option Re → Bool
  hits path none = false
  hits path (some re) = is_match re path

  -- One round of the third loop
  unfoldable pub try_regex : Text → CacheRule → RegexCache Re → Option (Bool × RegexCache Re)
  try_regex path rule cache =
      if is_type rule.type by_regex
      then elim (as_str rule.pattern) [
        | none ↦ some (false, cache)
        | some p ↦ get_or_compile_regex compile (with_flags rule p) cache >>= λ q.
            some (hits path q.0, q.1)
      ]
      else some (false, cache)

  unfoldable pub regex_ttl :
      Text → List CacheRule → RegexCache Re → Option (Option ℕ × RegexCache Re)
  unfolding try_regex
  regex_ttl path [] cache = some (none, cache)
  regex_ttl path (rule ∷ rules) cache = try_regex path rule cache >>= λ q.
      let rest = regex_ttl path rules q.1 in
      if q.0 then some (some (rule_ttl_seconds rule), q.1) else rest

  unfoldable pub match_rule_ttl :
      Text → List CacheRule → ℕ → RegexCache Re → Option (ℕ × RegexCache Re)
  unfolding path_len best_path extension extension_ttl regex_ttl rule_ttl_seconds
  match_rule_ttl path rules default_ttl cache = elim (best_path path rules none) [
    | some b ↦ some (b.1, cache)
    | none ↦ elim (extension_ttl (extension path) rules) [
      | some ttl ↦ some (ttl, cache)
      | none ↦ regex_ttl path rules cache >>= λ q. some (unwrap_or q.0 default_ttl, q.1)
    ]
  ]
