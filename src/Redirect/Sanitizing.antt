-- ===== src/Redirect/Sanitizing.antt =====
-- No character of a request splits the `Location` header that a rule makes (redirect/url.rs).
use nozdormu.Prelude.{
  ℕ, zero, suc, ◌+◌, ◌-◌, ◌≡◌, refl, ap, ◌∙◌, Bool, true, false, Option, none, some, List, [], ◌∷◌,
  ◌++◌, if◌then◌else◌, length, unwrap_or, All, All-append, Bool-cases, Option-cases, inl, inr,
}
use nozdormu.Prelude.Text.{Text, codes, starts_with, contains_char, strip_prefix}
use nozdormu.Prelude.Decimal.{format}
use nozdormu.Cache.Regexes.{RegexCache}
use nozdormu.Redirect.Patterns.{Covered, get_or_compile_promoted-Covered}
use nozdormu.Redirect.Url.{
  UrlRuleType, exact, prefix, regex, domain, match_source, applies, UrlRedirectRule, RequestInfo,
  UrlRedirectResult, replace_from, replace, is_safe_char, sanitize_header_value, replace_captures,
  replace_all, variables, substitute_variables, append_query_string, result_of, check_rule,
  check_url_rules,
}

-- No carriage return, line feed or NUL
abbrev pub IsClean : Text → Type 0
IsClean = All (λ c. is_safe_char c ≡ true)

sanitize_header_value-IsClean : (s : Text) → IsClean (sanitize_header_value s)
unfolding sanitize_header_value
sanitize_header_value-IsClean [] = tt
sanitize_header_value-IsClean (c ∷ s) = elim (Bool-cases (is_safe_char c)) [
  | inl t ↦ rw t (t, sanitize_header_value-IsClean s)
  | inr f ↦ rw f (sanitize_header_value-IsClean s)
]

replace_from-IsClean :
    (skip : ℕ) (pattern value s : Text)
    → IsClean value
    → IsClean s
    → IsClean (replace_from skip pattern value s)
unfolding replace_from
replace_from-IsClean skip pattern value [] v h = tt
replace_from-IsClean (suc skip) pattern value (c ∷ s) v h =
    replace_from-IsClean skip pattern value s v h.1
replace_from-IsClean zero pattern value (c ∷ s) v h =
    elim (Bool-cases (starts_with pattern (c ∷ s))) [
      | inl t ↦
          rw t (
            All-append _ value _ v
              (replace_from-IsClean (length pattern - 1) pattern value s v h.1))
      | inr f ↦ rw f (h.0, replace_from-IsClean 0 pattern value s v h.1)
    ]

replace_captures-IsClean :
    (i : ℕ) (captures : List Text) (result : Text)
    → IsClean result
    → IsClean (replace_captures i captures result)
unfolding replace_captures replace
replace_captures-IsClean i [] result h = h
replace_captures-IsClean i (cap ∷ captures) result h =
    replace_from-IsClean 0 (b'$' ∷ format (i + 1)) (sanitize_header_value cap) _
      (sanitize_header_value-IsClean cap) (replace_captures-IsClean (i + 1) captures result h)

replace_all-IsClean :
    (values : List (Text × Text)) (result : Text)
    → All (λ v. IsClean v.1) values
    → IsClean result
    → IsClean (replace_all values result)
unfolding replace_all replace
replace_all-IsClean [] result v h = h
replace_all-IsClean ((name, value) ∷ values) result v h =
    replace_all-IsClean values (replace name value result) v.1
      (replace_from-IsClean 0 name value result v.0 h)

variables-IsClean :
    (req : RequestInfo) → IsClean req.scheme → All (λ v. IsClean v.1) (variables req)
unfolding variables
variables-IsClean req h =
    let clean = sanitize_header_value-IsClean in
    let qs = unwrap_or req.query_string [] in
    (
      clean req.uri,
      (clean qs, (clean req.host, (h, (clean req.host, (clean req.path, (clean qs, tt)))))),
    )

append_query_string-IsClean :
    (target : Text) (query_string : Option Text) (preserve : Bool)
    → IsClean target
    → IsClean (unwrap_or query_string [])
    → IsClean (append_query_string target query_string preserve)
unfolding append_query_string
append_query_string-IsClean target none preserve h q = h
append_query_string-IsClean target (some []) preserve h q = h
append_query_string-IsClean target (some (c ∷ qs)) false h q = h
append_query_string-IsClean target (some (c ∷ qs)) true h q =
    elim (Bool-cases (contains_char b'?' target)) [
      | inl t ↦ rw t (All-append _ target _ h (refl, q))
      | inr f ↦ rw f (All-append _ target _ h (refl, q))
    ]

result_of-IsClean :
    (req : RequestInfo) (rule : UrlRedirectRule) (captures : List Text)
    → IsClean rule.target
    → IsClean req.scheme
    → IsClean (unwrap_or req.query_string [])
    → IsClean (result_of req rule captures).target_url
unfolding result_of substitute_variables
result_of-IsClean req rule captures t s q =
    append_query_string-IsClean _ req.query_string rule.preserve_query_string
      (replace_all-IsClean (variables req) (replace_captures 0 captures rule.target)
        (variables-IsClean req s) (replace_captures-IsClean 0 captures rule.target t))
      q

-- No redirect, or one to a clean URL
abbrev pub IsClean? : Option UrlRedirectResult → Type 0
IsClean? none = Unit
IsClean? (some result) = IsClean result.target_url

module _ {Re : Type 0} (compile : Text → Option Re)
    (captures : Re → Text → Option (List Text)) where
  match_source-Covered :
      (req : RequestInfo) (rule : UrlRedirectRule) (source input : Text) (kind : UrlRuleType)
      (cache : RegexCache Re)
      → Covered cache.entries cache.order
      → (found : Option (List Text)) × (cache' : RegexCache Re) × (match_source compile captures req
            rule source input kind cache
          ≡ some (found, cache'))
        × Covered cache'.entries cache'.order
  unfolding match_source
  match_source-Covered req rule source input exact cache h = (_, cache, refl, h)
  match_source-Covered req rule source input prefix cache h =
      elim (Option-cases (strip_prefix source input)) [
        | inl e ↦ (none, cache, rw (e, match_source) refl, h)
        | inr (remainder, e) ↦ (some (remainder ∷ []), cache, rw (e, match_source) refl, h)
      ]
  match_source-Covered req rule source input regex cache h =
      let flags = unwrap_or rule.regex_options [] in
      let pattern = if contains_char b'i' flags then codes "(?i)" ++ source else source in
      let (found, cache', e, h') = get_or_compile_promoted-Covered compile pattern cache h in
      elim (Option-cases found) [
        | inl bad ↦
            let known = e ∙ ap (λ f. some (f, cache')) bad in
            (none, cache', rw (known, match_source) refl, h')
        | inr (re, good) ↦
            let known = e ∙ ap (λ f. some (f, cache')) good in
            (captures re input, cache', rw (known, match_source) refl, h')
      ]
  match_source-Covered req rule source input domain cache h = (_, cache, refl, h)

  check_rule-Covered :
      (req : RequestInfo) (rule : UrlRedirectRule) (cache : RegexCache Re)
      → Covered cache.entries cache.order
      → (found : Option (List Text)) × (cache' : RegexCache Re) × (check_rule compile captures req
            rule cache
          ≡ some (found, cache'))
        × Covered cache'.entries cache'.order
  unfolding check_rule
  check_rule-Covered req rule cache h = elim (Bool-cases (applies req rule)) [
    | inl t ↦ rw t (
        match_source-Covered req rule (unwrap_or rule.source (codes "/"))
          (if rule.match_query_string then req.uri else req.path) rule.rule_type cache h)
    | inr f ↦ (none, cache, rw f refl, h)
  ]

  -- Whatever the host, the path, the URI and the groups of the regex hold: the check of the rules
  -- ends, and where the targets of the rules, the scheme and the query string have no carriage return,
  -- line feed or NUL, the URL that it redirects to has none. The queue of the cache names every pattern
  -- of its map, before and after.
  pub check_url_rules-IsClean :
      (req : RequestInfo) (rules : List UrlRedirectRule) (cache : RegexCache Re)
      → All (λ rule. IsClean rule.target) rules
      → IsClean req.scheme
      → IsClean (unwrap_or req.query_string [])
      → Covered cache.entries cache.order
      → (result : Option UrlRedirectResult) × (cache' : RegexCache Re) × (check_url_rules compile
            captures req rules cache
          ≡ some (result, cache'))
        × Covered cache'.entries cache'.order
        × IsClean? result
  unfolding check_url_rules
  check_url_rules-IsClean req [] cache t s q h = (none, cache, refl, h, tt)
  check_url_rules-IsClean req (rule ∷ rules) cache t s q h =
      let (found, cache', e, h') = check_rule-Covered req rule cache h in
      elim (Option-cases found) [
        | inl missed ↦
            let known = e ∙ ap (λ f. some (f, cache')) missed in
            rw (known, check_url_rules) (check_url_rules-IsClean req rules cache' t.1 s q h')
        | inr (groups, matched) ↦
            let known = e ∙ ap (λ f. some (f, cache')) matched in
            (
              some (result_of req rule groups),
              cache',
              rw (known, check_url_rules) refl,
              h',
              result_of-IsClean req rule groups t.0 s q,
            )
      ]
