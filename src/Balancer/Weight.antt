-- ===== src/Balancer/Weight.antt =====
-- Effective weights: balancer.rs, `effective_weight`, `compute_multiplier`, `penalty_factor` and
-- `percentile_latency`. The f64 arithmetic is the parameter `Floats`.
use nozdormu.Prelude.{
  ℕ, ◌-◌, ◌≤◌, ◌<◌, min, max, ◌≡◌, Bool, false, ◌||◌, not, Option, none, some, List, [], ◌∷◌, ltb,
  if◌then◌else◌, length, ◌==◌, get_elem?, filter, map, ◌>>=◌,
}
use nozdormu.Prelude.Text.{Text}
use nozdormu.Prelude.Map.{lookup}
use nozdormu.Health.{make_key, u32_mod}
use nozdormu.Balancer.{OriginConfig, OriginStats, Balancer}

-- IEEE arithmetic as far as the balancer uses it. `to_u32` is the saturating cast, which gives 0
-- for NaN; `ceil_usize` is `ceil() as usize`. `IsFraction` holds of the numbers from 0 to 1 and of
-- NaN.
pub record Floats : Type 1 where
  pub F : Type 0
  pub of_ℕ : ℕ → F
  pub le : F → F → Bool
  pub mul : F → F → F
  pub sub : F → F → F
  pub div : F → F → F
  pub to_u32 : F → ℕ
  pub ceil_usize : F → ℕ
  pub four : F
  pub one : F
  pub nine_tenths : F
  pub tenth : F
  pub ninety_nine_hundredths : F
  pub IsFraction : F → Type 0
  pub one-IsFraction : IsFraction one
  pub tenth-IsFraction : IsFraction tenth
  pub mul-IsFraction : (x y : F) → IsFraction x → IsFraction y → IsFraction (mul x y)
  pub interpolate-IsFraction :
      (value low high : F)
      → le value low ≡ false
      → le high value ≡ false
      → IsFraction (sub one (div (mul nine_tenths (sub value low)) (sub high low)))
  pub to_u32-mul : (w : ℕ) (x : F) → w < u32_mod → IsFraction x → to_u32 (mul (of_ℕ w) x) ≤ w

pub record AdaptiveWeightConfig (F : Type 0) : Type 0 where
  pub enabled : Bool
  pub window_size : ℕ
  pub latency_threshold_ms : F
  pub error_threshold : F

module _ (fl : Floats) where
  open fl use {
    F, of_ℕ, le, mul, sub, div, to_u32, ceil_usize, four, one, nine_tenths, tenth,
    ninety_nine_hundredths, IsFraction, one-IsFraction, tenth-IsFraction, mul-IsFraction,
    interpolate-IsFraction, to_u32-mul,
  }

  unfoldable pub penalty_factor : F → F → F → F
  penalty_factor value low high =
      if le value low
      then one
      else if le high value
      then tenth
      else sub one (div (mul nine_tenths (sub value low)) (sub high low))

  -- The order of `sort_unstable_by(partial_cmp)`
  unfoldable pub insert_sorted : F → List F → List F
  insert_sorted x [] = x ∷ []
  insert_sorted x (y ∷ ys) = if le x y then x ∷ y ∷ ys else y ∷ insert_sorted x ys

  unfoldable pub sort : List F → List F
  unfolding insert_sorted
  sort [] = []
  sort (x ∷ xs) = insert_sorted x (sort xs)

  -- `none` is a panic: the index into no samples.
  unfoldable pub percentile_latency : List (F × Bool) → F → Option F
  unfolding sort
  percentile_latency samples pct =
      let latencies = sort (map (λ s. s.0) samples) in
      let idx = ceil_usize (mul (of_ℕ (length latencies)) pct) - 1 in
      get_elem? latencies (min idx (length latencies - 1))

  unfoldable pub error_count : List (F × Bool) → ℕ
  error_count samples = length (filter (λ s. s.1) samples)

  unfoldable pub latency_factor : List (F × Bool) → AdaptiveWeightConfig F → Option F
  unfolding percentile_latency
  latency_factor samples config =
      if ltb (length samples) 10
      then some one
      else (percentile_latency samples ninety_nine_hundredths >>= λ p99.
          some
            (penalty_factor p99 config.latency_threshold_ms (mul config.latency_threshold_ms four)))

  unfoldable pub compute_multiplier : OriginStats F → AdaptiveWeightConfig F → Option F
  unfolding latency_factor error_count penalty_factor
  compute_multiplier stats config = latency_factor stats.samples config >>= λ latency.
      (let error_rate = div (of_ℕ (error_count stats.samples)) (of_ℕ (length stats.samples)) in
        some (
          mul latency
            (penalty_factor error_rate config.error_threshold (mul config.error_threshold four))))

  -- What the statistics of an origin make of its weight; `elapsed` is in whole seconds.
  unfoldable pub weigh : ℕ → Option (OriginStats F) → AdaptiveWeightConfig F → ℕ → Option ℕ
  unfolding compute_multiplier
  weigh weight none config now = some weight
  weigh weight (some stats) config now =
      if ltb 60 (now - stats.last_update) || length stats.samples == 0
      then some weight
      else (compute_multiplier stats config >>= λ multiplier.
          some (max 1 (to_u32 (mul (of_ℕ weight) multiplier))))

  unfoldable pub effective_weight :
      Balancer F → Text → OriginConfig → AdaptiveWeightConfig F → ℕ → Option ℕ
  unfolding make_key weigh
  effective_weight b site_id origin config now =
      if not config.enabled
      then some origin.weight
      else weigh origin.weight (lookup (make_key site_id origin.id) b.origin_stats) config now
