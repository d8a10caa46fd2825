-- ===== src/Cache/Longest.antt =====
-- The first of the longest path rules (strategy.rs, the first loop of `match_rule_ttl`).
use nozdormu.Prelude.{
  ℕ, ◌≤◌, ◌<◌, ◌≡◌, ◌⊎◌, inl, inr, refl, ap, true, false, Option, none, some, List, [], ◌∷◌, ◌++◌,
  All, arith, Bool-cases, Option-cases,
}
use nozdormu.Prelude.Text.{Text}
use nozdormu.Cache.{CacheRule}
use nozdormu.Cache.Rules.{rule_ttl_seconds, path_len, beats, best_path}

module _ (path : Text) where
  -- The pattern of a path rule that is a prefix of the path is shorter than `n`, or at most that.
  abbrev pub IsShorter : ℕ → CacheRule → Type 0
  IsShorter n rule = (k : ℕ) → path_len path rule ≡ some k → k < n

  abbrev pub IsAtMost : ℕ → CacheRule → Type 0
  IsAtMost n rule = (k : ℕ) → path_len path rule ≡ some k → k ≤ n

  -- The first of the longest prefixes
  abbrev pub LongestPrefix : List CacheRule → CacheRule → ℕ → Type 0
  LongestPrefix rules rule n =
      (before : List CacheRule) × (after : List CacheRule) × (rules ≡ before ++ (rule ∷ after))
      × (path_len path rule ≡ some n)
      × All (IsShorter n) before
      × All (IsAtMost n) after

  abbrev pub Loses : Option (ℕ × ℕ) → CacheRule → Type 0
  Loses best rule = (k : ℕ) → path_len path rule ≡ some k → beats k best ≡ false

  -- What the loop does to the best match so far: it stands, or a rule replaces it.
  abbrev pub Kept : List CacheRule → Option (ℕ × ℕ) → Type 0
  Kept rules best = (best_path path rules best ≡ best) × All (Loses best) rules

  abbrev pub Replaced : List CacheRule → Option (ℕ × ℕ) → Type 0
  Replaced rules best =
      (rule : CacheRule) × (n : ℕ) × LongestPrefix rules rule n
      × (beats n best ≡ true)
      × (best_path path rules best ≡ some (n, rule_ttl_seconds rule))

  beats_trans :
      (k n ttl : ℕ) (best : Option (ℕ × ℕ))
      → beats k best ≡ true
      → beats n (some (k, ttl)) ≡ true
      → beats n best ≡ true
  beats_trans k n ttl none h g = refl
  beats_trans k n ttl (some (l, t)) h g = ground arith

  beats-lt : (k n : ℕ) (best : Option (ℕ × ℕ)) → beats k best ≡ false → beats n best ≡ true → k < n
  beats-lt k n none h g = absurd (ground arith)
  beats-lt k n (some (l, t)) h g = ground arith

  Loses-IsAtMost :
      (n ttl : ℕ) (rules : List CacheRule)
      → All (Loses (some (n, ttl))) rules
      → All (IsAtMost n) rules
  Loses-IsAtMost n ttl [] h = tt
  Loses-IsAtMost n ttl (r ∷ rules) h =
      (λ k e. let lost = h.0 k e in ground arith, Loses-IsAtMost n ttl rules h.1)

  pub best_path-cases :
      (rules : List CacheRule) (best : Option (ℕ × ℕ)) → Kept rules best ⊎ Replaced rules best
  unfolding best_path
  best_path-cases [] best = inl (refl, tt)
  best_path-cases (q ∷ rules) best = elim (Option-cases (path_len path q)) [
    | inl miss ↦ elim (best_path-cases rules best) [
      | inl (same, all) ↦ inl (rw miss same, (λ k e. absurd (ground (arith, miss, e)), all))
      | inr (r, n, (before, after, split, here, low, up), over, e) ↦ inr (
        r,
        n,
        (
          q ∷ before,
          after,
          ap (λ t. q ∷ t) split,
          here,
          (λ k f. absurd (ground (arith, miss, f)), low),
          up,
        ),
        over,
        rw miss e,
      )
    ]
    | inr (k, is) ↦ elim (Bool-cases (beats k best)) [
      | inr lost ↦ elim (best_path-cases rules best) [
        | inl (same, all) ↦ inl (rw (is, lost) same, (λ j e. ground (arith, is, e, lost), all))
        | inr (r, n, (before, after, split, here, low, up), over, e) ↦ inr (
          r,
          n,
          (
            q ∷ before,
            after,
            ap (λ t. q ∷ t) split,
            here,
            (λ j f. ground (arith, is, f, beats-lt k n best lost over), low),
            up,
          ),
          over,
          rw (is, lost) e,
        )
      ]
      | inl won ↦ elim (best_path-cases rules (some (k, rule_ttl_seconds q))) [
        | inl (same, all) ↦ inr (
          q,
          k,
          ([], rules, refl, is, tt, Loses-IsAtMost k (rule_ttl_seconds q) rules all),
          won,
          rw (is, won) same,
        )
        | inr (r, n, (before, after, split, here, low, up), over, e) ↦ inr (
          r,
          n,
          (
            q ∷ before,
            after,
            ap (λ t. q ∷ t) split,
            here,
            (λ j f. ground (arith, is, f, over), low),
            up,
          ),
          beats_trans k n (rule_ttl_seconds q) best won over,
          rw (is, won) e,
        )
      ]
    ]
  ]
