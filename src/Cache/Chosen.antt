-- ===== src/Cache/Chosen.antt =====
-- Which rule gives a path its TTL (strategy.rs, `match_rule_ttl`).
use nozdormu.Prelude.{
  ℕ, ◌≡◌, ◌⊎◌, inl, inr, refl, ap, Bool, true, false, ◌&&◌, Option, none, some, List, [], ◌∷◌, ◌++◌,
  if◌then◌else◌, All, arith, Bool-cases, Option-cases,
}
use nozdormu.Prelude.Text.{Text}
use nozdormu.Cache.{by_extension, by_regex, CacheRule}
use nozdormu.Cache.Regexes.{RegexCache, IsValid, get_or_compile_regex-transparent}
use nozdormu.Cache.Longest.{LongestPrefix, Loses, best_path-cases}
use nozdormu.Cache.Rules.{
  is_type, as_str, rule_ttl_seconds, path_len, extension, matches_extension, extension_ttl,
  with_flags, hits, try_regex, regex_ttl, match_rule_ttl,
}

-- A rule of a list, the first one that satisfies a test
abbrev pub FirstMatch : (CacheRule → Bool) → List CacheRule → CacheRule → Type 0
FirstMatch test rules rule =
    (before : List CacheRule) × (after : List CacheRule) × (rules ≡ before ++ (rule ∷ after))
    × All (λ q. test q ≡ false) before
    × (test rule ≡ true)

first_ttl : (CacheRule → Bool) → List CacheRule → Option ℕ
first_ttl test [] = none
first_ttl test (rule ∷ rules) =
    let rest = first_ttl test rules in if test rule then some (rule_ttl_seconds rule) else rest

first_ttl-cases :
    (test : CacheRule → Bool) (rules : List CacheRule)
    → ((first_ttl test rules ≡ none) × All (λ q. test q ≡ false) rules)
      ⊎ ((rule : CacheRule) × FirstMatch test rules rule
          × (first_ttl test rules ≡ some (rule_ttl_seconds rule)))
unfolding first_ttl
first_ttl-cases test [] = inl (refl, tt)
first_ttl-cases test (rule ∷ rules) = elim (Bool-cases (test rule)) [
  | inl hit ↦ inr (rule, ([], rules, refl, tt, hit), rw hit refl)
  | inr miss ↦ elim (first_ttl-cases test rules) [
    | inl (e, all) ↦ inl (rw miss e, (miss, all))
    | inr (r, (before, after, split, none_before, hit), e) ↦
        inr
          (r, (rule ∷ before, after, ap (λ t. rule ∷ t) split, (miss, none_before), hit), rw miss e)
  ]
]

abbrev pub extension_test : Text → CacheRule → Bool
extension_test path rule =
    is_type rule.type by_extension && matches_extension (extension path) rule.pattern

extension_ttl-first :
    (path : Text) (rules : List CacheRule)
    → extension_ttl (extension path) rules ≡ first_ttl (extension_test path) rules
unfolding extension_ttl first_ttl
extension_ttl-first path [] = refl
extension_ttl-first path (rule ∷ rules) = rw (extension_ttl-first path rules) refl

module _ {Re : Type 0} (compile : Text → Option Re) (is_match : Re → Text → Bool)
    (path : Text) where
  -- A regex rule whose pattern, compiled afresh, matches the path
  unfoldable pub regex_test : CacheRule → Bool
  regex_test rule =
      if is_type rule.type by_regex
      then elim (as_str rule.pattern) [
        | none ↦ false
        | some p ↦ hits compile is_match path (compile (with_flags rule p))
      ]
      else false

  -- A call from a cache that is valid returns `a`, and leaves a valid cache.
  abbrev pub Returns : {A : Type 0} → Option (A × RegexCache Re) → A → Type 0
  Returns m a = (cache' : RegexCache Re) × (m ≡ some (a, cache')) × IsValid compile cache'

  try_regex-Returns :
      (rule : CacheRule) (cache : RegexCache Re)
      → IsValid compile cache
      → Returns (try_regex compile is_match path rule cache) (regex_test rule)
  unfolding try_regex regex_test
  try_regex-Returns rule cache v = elim (Bool-cases (is_type rule.type by_regex)) [
    | inr other ↦ (cache, rw other refl, v)
    | inl regex ↦ elim (Option-cases (as_str rule.pattern)) [
      | inl absent ↦ (cache, rw (regex, absent) refl, v)
      | inr (p, is) ↦
          let (cache', e, v') =
            get_or_compile_regex-transparent compile (with_flags rule p) cache v in
          (cache', rw (regex, is, e) refl, v')
    ]
  ]

  regex_ttl-Returns :
      (rules : List CacheRule) (cache : RegexCache Re)
      → IsValid compile cache
      → Returns (regex_ttl compile is_match path rules cache) (first_ttl regex_test rules)
  unfolding regex_ttl first_ttl
  regex_ttl-Returns [] cache v = (cache, refl, v)
  regex_ttl-Returns (rule ∷ rules) cache v =
      let (c, e, v') = try_regex-Returns rule cache v in
      elim (Bool-cases (regex_test rule)) [
        | inl hit ↦ (c, rw (e, hit) refl, v')
        | inr miss ↦ let (c', e', v'') = regex_ttl-Returns rules c v' in (c', rw (e, miss) e', v'')
      ]

  -- The rule that decides, and the TTL it gives: the first of the longest prefixes, or else the first
  -- rule of the path's extension, or else the first regex that matches, or else the default.
  abbrev pub Decides : List CacheRule → ℕ → ℕ → Type 0
  Decides rules default_ttl ttl =
      ((rule : CacheRule) × (n : ℕ) × LongestPrefix path rules rule n
        × (ttl ≡ rule_ttl_seconds rule))
      ⊎ (All (λ q. path_len path q ≡ none) rules
          × (((rule : CacheRule) × FirstMatch (extension_test path) rules rule
                × (ttl ≡ rule_ttl_seconds rule))
              ⊎ (All (λ q. extension_test path q ≡ false) rules
                  × (((rule : CacheRule) × FirstMatch regex_test rules rule
                        × (ttl ≡ rule_ttl_seconds rule))
                      ⊎ (All (λ q. regex_test q ≡ false) rules × (ttl ≡ default_ttl))))))

  Loses-none :
      (rules : List CacheRule)
      → All (Loses path none) rules
      → All (λ q. path_len path q ≡ none) rules
  Loses-none [] h = tt
  Loses-none (q ∷ rules) h = elim (Option-cases (path_len path q)) [
    | inl miss ↦ (miss, Loses-none rules h.1)
    | inr (k, is) ↦ absurd (let lost = h.0 k is in ground arith)
  ]

  -- From a valid cache of patterns the choice of a TTL returns, leaves a valid cache, and its TTL is
  -- that of the deciding rule, which does not depend on what the cache held.
  pub match_rule_ttl-Decides :
      (rules : List CacheRule) (default_ttl : ℕ) (cache : RegexCache Re)
      → IsValid compile cache
      → (ttl : ℕ) × Decides rules default_ttl ttl
        × Returns (match_rule_ttl compile is_match path rules default_ttl cache) ttl
  unfolding match_rule_ttl
  match_rule_ttl-Decides rules default_ttl cache v = elim (best_path-cases path rules none) [
    | inr (r, n, longest, over, e) ↦
        (rule_ttl_seconds r, inl (r, n, longest, refl), (cache, rw (e, match_rule_ttl) refl, v))
    | inl (e, lost) ↦
        let no_path = Loses-none rules lost in
        let extensions = extension_ttl-first path rules in
        elim (first_ttl-cases (extension_test path) rules) [
          | inr (r, first, f) ↦ (
            rule_ttl_seconds r,
            inr (no_path, inl (r, first, refl)),
            (cache, rw (e, match_rule_ttl, extensions, f) refl, v),
          )
          | inl (f, no_extension) ↦
              let (cache', g, v') = regex_ttl-Returns rules cache v in
              elim (first_ttl-cases regex_test rules) [
                | inr (r, first, h) ↦ (
                  rule_ttl_seconds r,
                  inr (no_path, inr (no_extension, inl (r, first, refl))),
                  (cache', rw (e, match_rule_ttl, extensions, f, g, h) refl, v'),
                )
                | inl (h, no_regex) ↦ (
                  default_ttl,
                  inr (no_path, inr (no_extension, inr (no_regex, refl))),
                  (cache', rw (e, match_rule_ttl, extensions, f, g, h) refl, v'),
                )
              ]
        ]
  ]
