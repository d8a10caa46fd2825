-- ===== src/Balancer/Least.antt =====
-- Least connections: balancer.rs, `select_least_conn`.
use nozdormu.Prelude.{
  ℕ, ◌<◌, ◌≡◌, ◌≢◌, ◌⊎◌, ◌↔◌, refl, true, some, List, [], ◌∷◌, ◌++◌, ltb, length, arith, Bool-cases,
  inl, inr, All, ◌&&◌, ◌||◌, ◌==◌, ap,
}
use nozdormu.Prelude.Text.{Text}
use nozdormu.Balancer.{OriginConfig, Balancer, active_conn_count}
use nozdormu.Balancer.Select.{least, select_least_conn}

-- The candidates with their effective weights
abbrev pub Weighted : Type 0
Weighted = OriginConfig × ℕ

pub pairs : List OriginConfig → List ℕ → List Weighted
pairs [] ws = []
pairs (o ∷ os) [] = []
pairs (o ∷ os) (w ∷ ws) = (o, w) ∷ pairs os ws

module _ (conns : Text → ℕ) where
  -- Fewer connections, or as many and a higher weight
  abbrev pub Beats : Weighted → Weighted → Type 0
  Beats p q = (conns p.0.id < conns q.0.id) ⊎ ((conns p.0.id ≡ conns q.0.id) × (q.1 < p.1))

  Beats-trans : (p q r : Weighted) → Beats p q → Beats q r → Beats p r
  Beats-trans p q r h k = omega arith

  Beats-of_not : (p q r : Weighted) → Beats p q → ¬ Beats r q → Beats p r
  Beats-of_not p q r h k = ground arith

  -- Where the choice stands: it beats all that stand before it, and nothing behind it beats it.
  pub data IsFirstBest : List Weighted → Weighted → Type 0 where
    at :
        (before after : List Weighted) (all : List Weighted) (p : Weighted)
        → all ≡ before ++ (p ∷ after)
        → All (Beats p) before
        → All (λ q. ¬ Beats q p) after
        → IsFirstBest all p

  -- The same behind a first candidate
  data Chosen (head : Weighted) (rest : List Weighted) (p : Weighted) : Type 0 where
    keep : p ≡ head → All (λ q. ¬ Beats q head) rest → Chosen head rest p
    move :
        (before after : List Weighted)
        → rest ≡ before ++ (p ∷ after)
        → Beats p head
        → All (Beats p) before
        → All (λ q. ¬ Beats q p) after
        → Chosen head rest p

  Chosen-IsFirstBest :
      (head : Weighted) (rest : List Weighted) (p : Weighted)
      → Chosen head rest p
      → IsFirstBest (head ∷ rest) p
  Chosen-IsFirstBest head rest p (keep e h) = rw e (at [] rest (head ∷ rest) head refl tt h)
  Chosen-IsFirstBest head rest p (move before after e b h k) =
      at (head ∷ before) after (head ∷ rest) p (ap (λ t. head ∷ t) e) (b, h) k

  Chosen-better :
      (head o : Weighted) (rest : List Weighted) (p : Weighted)
      → Beats o head
      → Chosen o rest p
      → Chosen head (o ∷ rest) p
  Chosen-better head o rest p b (keep e h) = rw e (move [] rest refl b tt h)
  Chosen-better head o rest p b (move before after e c h k) =
      move (o ∷ before) after (ap (λ t. o ∷ t) e) (Beats-trans p o head c b) (c, h) k

  Chosen-worse :
      (head o : Weighted) (rest : List Weighted) (p : Weighted)
      → ¬ Beats o head
      → Chosen head rest p
      → Chosen head (o ∷ rest) p
  Chosen-worse head o rest p b (keep e h) = keep e (b, h)
  Chosen-worse head o rest p b (move before after e c h k) =
      move (o ∷ before) after (ap (λ t. o ∷ t) e) c (Beats-of_not p head o c b, h) k

  better_iff :
      (best o : OriginConfig) (best_weight w : ℕ)
      → ((ltb (conns o.id) (conns best.id) || (conns o.id == conns best.id && ltb best_weight w))
          ≡ true)
        ↔ Beats (o, w) (best, best_weight)
  better_iff best o best_weight w = ground arith

  -- The loop ends with an answer, which is the first best.
  least-Chosen :
      (best : OriginConfig) (best_weight : ℕ) (os : List OriginConfig) (ws : List ℕ)
      → length os ≡ length ws
      → (p : Weighted) × (least conns best best_weight (conns best.id) os ws ≡ some p.0)
        × Chosen (best, best_weight) (pairs os ws) p
  unfolding least pairs
  least-Chosen best best_weight [] [] e = ((best, best_weight), refl, keep refl tt)
  least-Chosen best best_weight [] (w ∷ ws) e = absurd (omega arith)
  least-Chosen best best_weight (o ∷ os) [] e = absurd (omega arith)
  least-Chosen best best_weight (o ∷ os) (w ∷ ws) e =
      let take_o = least-Chosen o w os ws (omega arith) in
      let stay = least-Chosen best best_weight os ws (omega arith) in
      elim (Bool-cases
        (ltb (conns o.id) (conns best.id) || (conns o.id == conns best.id && ltb best_weight w))) [
          | inl yes_better ↦ rw yes_better (
            take_o.0,
            take_o.1,
            Chosen-better (best, best_weight) (o, w) (pairs os ws) take_o.0
                ((better_iff best o best_weight w).0 yes_better) take_o.2,
          )
          | inr worse ↦ rw worse (
            stay.0,
            stay.1,
            Chosen-worse (best, best_weight) (o, w) (pairs os ws) stay.0
                (λ b. let better = (better_iff best o best_weight w).1 b in cc) stay.2,
          )
        ]

module _ {L : Type 0} where
  -- With at least one candidate and a weight for each, least connections answers a candidate: the
  -- first that no other beats, by fewer active connections or as many and a higher effective weight.
  pub select_least_conn-IsFirstBest :
      (b : Balancer L) (candidates : List OriginConfig) (eff_weights : List ℕ) (site_id : Text)
      → candidates ≢ []
      → length candidates ≡ length eff_weights
      → (p : Weighted) × (select_least_conn b candidates eff_weights site_id ≡ some p.0)
        × IsFirstBest (active_conn_count b site_id) (pairs candidates eff_weights) p
  unfolding select_least_conn pairs
  select_least_conn-IsFirstBest b [] ws site_id h e = absurd (h refl)
  select_least_conn-IsFirstBest b (o ∷ os) [] site_id h e = absurd (omega arith)
  select_least_conn-IsFirstBest b (o ∷ os) (w ∷ ws) site_id h e =
      let (p, chosen, best) = least-Chosen (active_conn_count b site_id) o w os ws (omega arith) in
      (p, chosen, Chosen-IsFirstBest (active_conn_count b site_id) (o, w) (pairs os ws) p best)
