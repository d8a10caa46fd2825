-- ===== src/Health/Origin.antt =====
-- The automaton of one origin: what its successes and failures, forced states and probes lead to
-- (health.rs).
use nozdormu.Prelude.{
  ℕ, zero, suc, ◌+◌, ◌<◌, ◌≡◌, ◌⊎◌, Bool, true, false, List, [], ◌∷◌, leb, ltb, arith, inl, inr,
  ◌∙◌, replicate, Bool-cases,
}
use nozdormu.Health.{OriginHealth, default_health, u32_mod, succeed, fail, force, probe}

-- A call on one origin. `forget` is `remove_origin`: the origin has its default state again.
pub data Event : Type 0 where
  success failure forget : Event
  forced : Bool → Event
  probed : ℕ → Bool → Event

module _ (unhealthy_threshold healthy_threshold : ℕ) where
  unfoldable pub step : Event → OriginHealth → OriginHealth
  unfolding succeed fail force probe
  step success h = succeed healthy_threshold h
  step failure h = fail unhealthy_threshold h
  step forget h = default_health
  step (forced healthy) h = force healthy h
  step (probed now result) h = probe now result h

  unfoldable pub run : List Event → OriginHealth → OriginHealth
  unfolding step
  run [] h = h
  run (e ∷ es) h = run es (step e h)

  -- A healthy origin has failed fewer times in a row than the threshold, an unhealthy one has
  -- succeeded fewer times, and it is never counted as doing both.
  pub record IsSettled (h : OriginHealth) : Type 0 where
    pub up : h.healthy ≡ true → h.consecutive_failures < unhealthy_threshold
    pub down : h.healthy ≡ false → h.consecutive_successes < healthy_threshold
    pub one_kind : (h.consecutive_failures ≡ 0) ⊎ (h.consecutive_successes ≡ 0)

  module _ (uh : 0 < unhealthy_threshold) (hh : 0 < healthy_threshold) where
    default-IsSettled : IsSettled default_health
    default-IsSettled = ground arith

    step-IsSettled : (e : Event) (h : OriginHealth) → IsSettled h → IsSettled (step e h)
    unfolding step
    step-IsSettled success h v = ground arith
    step-IsSettled failure h v = ground arith
    step-IsSettled forget h v = ground arith
    step-IsSettled (forced healthy) h v = ground arith
    step-IsSettled (probed now result) h v = ground arith

    run_from-IsSettled : (es : List Event) (h : OriginHealth) → IsSettled h → IsSettled (run es h)
    unfolding run
    run_from-IsSettled [] h v = v
    run_from-IsSettled (e ∷ es) h v = run_from-IsSettled es (step e h) (step-IsSettled e h v)

    -- Whatever calls reach an origin, starting from its default state: with thresholds above zero
    -- it is settled.
    pub run-IsSettled : (es : List Event) → IsSettled (run es default_health)
    run-IsSettled es = run_from-IsSettled es default_health default-IsSettled

  failure-down : (h : OriginHealth) → h.healthy ≡ false → (step failure h).healthy ≡ false
  unfolding step
  failure-down h v = ground arith

  failures-down :
      (n : ℕ) (h : OriginHealth) → h.healthy ≡ false → (run (replicate n failure) h).healthy ≡ false
  unfolding run
  failures-down zero h v = v
  failures-down (suc n) h v = failures-down n (step failure h) (failure-down h v)

  success-up : (h : OriginHealth) → h.healthy ≡ true → (step success h).healthy ≡ true
  unfolding step
  success-up h v = ground arith

  successes-up :
      (n : ℕ) (h : OriginHealth) → h.healthy ≡ true → (run (replicate n success) h).healthy ≡ true
  unfolding run
  successes-up zero h v = v
  successes-up (suc n) h v = successes-up n (step success h) (success-up h v)

  -- A healthy origin that then fails n times in a row is taken out exactly when the failures in a
  -- row, those before included, reach the threshold (as long as the counter does not wrap).
  pub run_failures :
      (n : ℕ) (h : OriginHealth)
      → h.healthy ≡ true
      → h.consecutive_failures < unhealthy_threshold
      → h.consecutive_failures + n < u32_mod
      → (run (replicate n failure) h).healthy ≡ ltb (h.consecutive_failures + n) unhealthy_threshold
  unfolding run step
  run_failures zero h up below fits = ground arith
  run_failures (suc n) h up below fits =
      elim (Bool-cases (ltb (suc h.consecutive_failures) unhealthy_threshold)) [
        | inl more ↦
            (run_failures n (step failure h) (ground arith) (ground arith) (ground arith)
              ∙ (ground arith))
        | inr out ↦ failures-down n (step failure h) (ground arith) ∙ (ground arith)
      ]

  -- An unhealthy origin that then succeeds n times in a row is back exactly when the successes in
  -- a row, those before included, reach the threshold (as long as the counter does not wrap).
  pub run_successes :
      (n : ℕ) (h : OriginHealth)
      → h.healthy ≡ false
      → h.consecutive_successes < healthy_threshold
      → h.consecutive_successes + n < u32_mod
      → (run (replicate n success) h).healthy ≡ leb healthy_threshold (h.consecutive_successes + n)
  unfolding run step
  run_successes zero h down below fits = ground arith
  run_successes (suc n) h down below fits =
      elim (Bool-cases (ltb (suc h.consecutive_successes) healthy_threshold)) [
        | inl more ↦
            (run_successes n (step success h) (ground arith) (ground arith) (ground arith)
              ∙ (ground arith))
        | inr out ↦ successes-up n (step success h) (ground arith) ∙ (ground arith)
      ]
