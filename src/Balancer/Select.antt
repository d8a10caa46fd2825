-- ===== src/Balancer/Select.antt =====
-- The selection algorithms of balancer.rs, over the candidates and their effective weights.
-- `none` is a panic: an index out of range, or a remainder by zero.
use nozdormu.Prelude.{
  ℕ, ◌+◌, ◌%◌, ◌&&◌, ◌||◌, Option, none, some, List, [], ◌∷◌, ◌==◌, ltb, if◌then◌else◌, length,
  get_elem?, last?,
}
use nozdormu.Prelude.Text.{Text}
use nozdormu.Prelude.Decimal.{u64_mod}
use nozdormu.Health.{u32_mod}
use nozdormu.Rand.{rand_u32, rand_usize}
use nozdormu.Balancer.{OriginConfig, Balancer, active_conn_count}

-- `iter().sum::<u32>()`
unfoldable pub sum : List ℕ → ℕ
sum [] = 0
sum (w ∷ ws) = (w + sum ws) % u32_mod

-- The loop of the weighted selections: the first origin at which the weights so far exceed the
-- target, or `candidates.last()` after the loop.
unfoldable pub walk : Option OriginConfig → ℕ → ℕ → List OriginConfig → List ℕ → Option OriginConfig
walk last target cumulative [] ws = last
walk last target cumulative (o ∷ os) [] = none
walk last target cumulative (o ∷ os) (w ∷ ws) =
    let sofar = (cumulative + w) % u32_mod in
    let rest = walk last target sofar os ws in if ltb target sofar then some o else rest

-- The loop of `select_least_conn`, from the best origin so far, with its weight and connections.
unfoldable pub least :
    (Text → ℕ) → OriginConfig → ℕ → ℕ → List OriginConfig → List ℕ → Option OriginConfig
least conns best best_weight best_conns [] ws = some best
least conns best best_weight best_conns (o ∷ os) [] = none
least conns best best_weight best_conns (o ∷ os) (w ∷ ws) =
    let better = ltb (conns o.id) best_conns || (conns o.id == best_conns && ltb best_weight w) in
    least conns (if better then o else best) (if better then w else best_weight)
      (if better then conns o.id else best_conns) os ws

module _ {L : Type 0} where
  unfoldable pub select_round_robin :
      Balancer L → List OriginConfig → List ℕ → Option OriginConfig × Balancer L
  unfolding sum walk
  select_round_robin b candidates eff_weights =
      let total_weight = sum eff_weights in
      let counter = b.rr_counter in
      let b' = record b { rr_counter = (counter + 1) % u64_mod } in
      if total_weight == 0
      then (get_elem? candidates (counter % length candidates), b')
      else (walk (last? candidates) (counter % total_weight) 0 candidates eff_weights, b')

  unfoldable pub select_weighted_random :
      Balancer L → List OriginConfig → List ℕ → Option OriginConfig × Balancer L
  unfolding sum walk
  select_weighted_random b candidates eff_weights =
      let total_weight = sum eff_weights in
      if total_weight == 0
      then (let (idx, state) = rand_usize (length candidates) b.rand_state in
          (get_elem? candidates idx, record b { rand_state = state }))
      else (let (target, state) = rand_u32 total_weight b.rand_state in
          (
            walk (last? candidates) target 0 candidates eff_weights,
            record b { rand_state = state },
          ))

  unfoldable pub select_least_conn :
      Balancer L → List OriginConfig → List ℕ → Text → Option OriginConfig
  unfolding least
  select_least_conn b [] ws site_id = none
  select_least_conn b (o ∷ os) [] site_id = if length os == 0 then some o else none
  select_least_conn b (o ∷ os) (w ∷ ws) site_id =
      least (active_conn_count b site_id) o w (active_conn_count b site_id o.id) os ws
