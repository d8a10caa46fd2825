-- ===== src/Balancer/Slots.antt =====
-- The weighted selections against their meaning: a table with as many slots for an origin as its
-- weight (balancer.rs).
use nozdormu.Prelude.{
  ℕ, zero, suc, ◌+◌, ◌-◌, ◌≤◌, ◌<◌, ◌≡◌, refl, Option, some, List, [], ◌∷◌, ◌++◌, length, get_elem?,
  replicate, arith, length-append, length-replicate, ◌∙◌, ap,
}
use nozdormu.Health.{u32_mod}
use nozdormu.Balancer.{OriginConfig}
use nozdormu.Balancer.Select.{sum, walk}

-- The slots, in the order of the candidates.
pub table : List OriginConfig → List ℕ → List OriginConfig
table [] ws = []
table (o ∷ os) [] = []
table (o ∷ os) (w ∷ ws) = replicate w o ++ table os ws

-- The total of the weights in ℕ, which the u32 sum of the code is when it does not wrap.
abbrev pub total : List ℕ → ℕ
total [] = 0
total (w ∷ ws) = w + total ws

pub sum-eq-total : (ws : List ℕ) → total ws < u32_mod → sum ws ≡ total ws
unfolding sum
sum-eq-total [] h = refl
sum-eq-total (w ∷ ws) h = omega (arith, sum-eq-total ws)

get_elem?-replicate :
    {A : Type 0} (n i : ℕ) (a : A) (xs : List A)
    → i < n
    → get_elem? (replicate n a ++ xs) i ≡ some a
get_elem?-replicate zero i a xs h = absurd (omega arith)
get_elem?-replicate (suc n) zero a xs h = refl
get_elem?-replicate (suc n) (suc i) a xs h = get_elem?-replicate n i a xs (omega arith)

get_elem?-past_replicate :
    {A : Type 0} (n i j : ℕ) (a : A) (xs : List A)
    → j ≡ n + i
    → get_elem? (replicate n a ++ xs) j ≡ get_elem? xs i
get_elem?-past_replicate zero i j a xs e = ap (get_elem? xs) (omega arith)
get_elem?-past_replicate (suc n) i zero a xs e = absurd (omega arith)
get_elem?-past_replicate (suc n) i (suc j) a xs e =
    get_elem?-past_replicate n i j a xs (omega arith)

pub length-table :
    (os : List OriginConfig) (ws : List ℕ) → length os ≡ length ws → length (table os ws) ≡ total ws
unfolding table
length-table [] [] h = refl
length-table [] (w ∷ ws) h = absurd (omega arith)
length-table (o ∷ os) [] h = absurd (omega arith)
length-table (o ∷ os) (w ∷ ws) h =
    omega
      (arith, length-append (replicate w o) (table os ws), length-replicate w o, length-table os ws)

walk_from :
    (last : Option OriginConfig) (target cumulative : ℕ) (os : List OriginConfig) (ws : List ℕ)
    → length os ≡ length ws
    → cumulative ≤ target
    → target < cumulative + total ws
    → cumulative + total ws < u32_mod
    → walk last target cumulative os ws ≡ get_elem? (table os ws) (target - cumulative)
unfolding walk table
walk_from last target cumulative [] [] e lo hi fits = absurd (omega arith)
walk_from last target cumulative [] (w ∷ ws) e lo hi fits = absurd (omega arith)
walk_from last target cumulative (o ∷ os) [] e lo hi fits = absurd (omega arith)
walk_from last target cumulative (o ∷ os) (w ∷ ws) e lo hi fits = ground (
  arith,
  get_elem?-replicate w (target - cumulative) o (table os ws),
  get_elem?-past_replicate w (target - (cumulative + w)) (target - cumulative) o (table os ws),
  walk_from last target (cumulative + w) os ws,
)

-- The loop returns the slot at the target.
pub walk-slot :
    (last : Option OriginConfig) (target : ℕ) (os : List OriginConfig) (ws : List ℕ)
    → length os ≡ length ws
    → target < total ws
    → total ws < u32_mod
    → walk last target 0 os ws ≡ get_elem? (table os ws) target
walk-slot last target os ws e hi fits =
    walk_from last target 0 os ws e (omega arith) (omega arith) (omega arith)
    ∙ ap (get_elem? (table os ws)) (omega arith)
