-- ===== src/Balancer/Total.antt =====
-- `select_peer` always answers: no index is out of range and nothing is divided by zero
-- (balancer.rs).
use native.Mathlib.Nat.{mod-lt}
use nozdormu.Prelude.{
  ℕ, zero, suc, ◌+◌, ◌*◌, ◌%◌, ◌≤◌, ◌<◌, ◌≡◌, refl, Option, some, List, [], ◌∷◌, if◌then◌else◌,
  length, get_elem?, last?, arith, Bool-cases, ltb, leb, ◌==◌, inl, inr, ap, All, All-append,
}
use nozdormu.Prelude.Text.{Text}
use nozdormu.Prelude.Member.{get_elem?-lt}
use nozdormu.Rand.{rand_u32, rand_usize, rand_usize-lt}
use nozdormu.Health.{u32_mod}
use nozdormu.Balancer.{OriginConfig, Balancer}
use nozdormu.Balancer.Select.{
  walk, sum, select_round_robin, select_weighted_random, select_least_conn,
}
use nozdormu.Balancer.Least.{select_least_conn-IsFirstBest}
use nozdormu.Balancer.Ring.{
  Ring, insert_point, sort_points, search_point, virtual_nodes, points_from,
  build_hash_ring_weighted, select_ip_hash, vnodes_per_weight,
}

abbrev pub Answers : {A : Type 0} → Option A → Type 0
Answers {A} o = (a : A) × (o ≡ some a)

last?-Answers : (x : OriginConfig) (os : List OriginConfig) → Answers (last? (x ∷ os))
last?-Answers x [] = (x, refl)
last?-Answers x (y ∷ os) = last?-Answers y os

walk-Answers :
    (last : Option OriginConfig) (target cumulative : ℕ) (os : List OriginConfig) (ws : List ℕ)
    → length os ≡ length ws
    → Answers last
    → Answers (walk last target cumulative os ws)
unfolding walk
walk-Answers last target cumulative [] ws e h = h
walk-Answers last target cumulative (o ∷ os) [] e h = absurd (omega arith)
walk-Answers last target cumulative (o ∷ os) (w ∷ ws) e h =
    let sofar = (cumulative + w) % u32_mod in
    let rest = walk-Answers last target sofar os ws (omega arith) h in
    elim (Bool-cases (ltb target sofar)) [ inl hit ↦ rw hit (o, refl) | inr miss ↦ rw miss rest ]

nonempty-last? : (os : List OriginConfig) → 0 < length os → Answers (last? os)
nonempty-last? [] h = absurd (omega arith)
nonempty-last? (o ∷ os) h = last?-Answers o os

module _ {L : Type 0} (b : Balancer L) (os : List OriginConfig) (ws : List ℕ)
    (e : length os ≡ length ws) (some_candidate : 0 < length os) where
  pub round_robin-Answers : Answers (select_round_robin b os ws).0
  unfolding select_round_robin
  round_robin-Answers = elim (Bool-cases (sum ws == 0)) [
    | inl z ↦ rw z (get_elem?-lt os (b.rr_counter % length os) (mod-lt b.rr_counter some_candidate))
    | inr n ↦ rw n (
        walk-Answers (last? os) (b.rr_counter % sum ws) 0 os ws e
          (nonempty-last? os some_candidate))
  ]

  pub weighted_random-Answers : Answers (select_weighted_random b os ws).0
  unfolding select_weighted_random
  weighted_random-Answers = elim (Bool-cases (sum ws == 0)) [
    | inl z ↦ rw z (
        get_elem?-lt os (rand_usize (length os) b.rand_state).0
          (rand_usize-lt (length os) b.rand_state some_candidate))
    | inr n ↦ rw n (
        walk-Answers (last? os) (rand_u32 (sum ws) b.rand_state).0 0 os ws e
          (nonempty-last? os some_candidate))
  ]

  pub least_conn-Answers : (site_id : Text) → Answers (select_least_conn b os ws site_id)
  least_conn-Answers site_id =
      let (p, chosen, best) =
        select_least_conn-IsFirstBest b os ws site_id
          (λ nil. (let none_left = ap length nil in absurd (omega arith))) e in
      (p.0, chosen)

-- Every point of a ring belongs to a candidate.
abbrev InRange : ℕ → Ring → Type 0
InRange n = All (λ p. p.1 < n)

insert_point-InRange :
    (n : ℕ) (p : ℕ × ℕ) (ring : Ring) → p.1 < n → InRange n ring → InRange n (insert_point p ring)
unfolding insert_point
insert_point-InRange n p [] h k = (h, tt)
insert_point-InRange n p (q ∷ qs) h k = elim (Bool-cases (leb p.0 q.0)) [
  | inl first ↦ rw first (h, k)
  | inr later ↦ rw later (k.0, insert_point-InRange n p qs h k.1)
]

sort_points-InRange : (n : ℕ) (ring : Ring) → InRange n ring → InRange n (sort_points ring)
unfolding sort_points
sort_points-InRange n [] h = tt
sort_points-InRange n (p ∷ ps) h =
    insert_point-InRange n p (sort_points ps) h.0 (sort_points-InRange n ps h.1)

module _ (sip_hash : Text → ℕ) where
  virtual_nodes-InRange :
      (n : ℕ) (id : Text) (idx i count : ℕ)
      → idx < n
      → InRange n (virtual_nodes sip_hash id idx i count)
  unfolding virtual_nodes
  virtual_nodes-InRange n id idx i zero h = tt
  virtual_nodes-InRange n id idx i (suc count) h =
      (h, virtual_nodes-InRange n id idx (i + 1) count h)

  points_from-InRange :
      (n idx : ℕ) (os : List OriginConfig) (ws : List ℕ)
      → idx + length os ≤ n
      → InRange n (points_from sip_hash idx os ws)
  unfolding points_from
  points_from-InRange n idx [] ws h = tt
  points_from-InRange n idx (o ∷ os) [] h = tt
  points_from-InRange n idx (o ∷ os) (w ∷ ws) h =
      All-append _ (virtual_nodes sip_hash o.id idx 0 (w * vnodes_per_weight % u32_mod)) _
        (virtual_nodes-InRange n o.id idx 0 _ (omega arith))
        (points_from-InRange n (suc idx) os ws (omega arith))

ring-InRange :
    (sip_hash : Text → ℕ) (os : List OriginConfig) (ws : List ℕ)
    → InRange (length os) (build_hash_ring_weighted sip_hash os ws)
unfolding build_hash_ring_weighted
ring-InRange sip_hash os ws =
    sort_points-InRange (length os) (points_from sip_hash 0 os ws)
      (points_from-InRange sip_hash (length os) 0 os ws (omega arith))

get_elem?-InRange :
    (n : ℕ) (ring : Ring) (i : ℕ)
    → InRange n ring
    → i < length ring
    → (p : ℕ × ℕ) × (get_elem? ring i ≡ some p) × (p.1 < n)
get_elem?-InRange n [] i h k = absurd (omega arith)
get_elem?-InRange n (p ∷ ps) zero h k = (p, refl, h.0)
get_elem?-InRange n (p ∷ ps) (suc i) h k = get_elem?-InRange n ps i h.1 (omega arith)

pub ip_hash-Answers :
    (sip_hash : Text → ℕ) (os : List OriginConfig) (ws : List ℕ) (ip : Text)
    → 0 < length os
    → Answers (select_ip_hash sip_hash os ws ip)
unfolding select_ip_hash
ip_hash-Answers sip_hash os ws ip h =
    let ring = build_hash_ring_weighted sip_hash os ws in
    let found = search_point (sip_hash ip) ring in
    let idx = if leb (length ring) found then 0 else found in
    elim (Bool-cases (length ring == 0)) [
      | inl z ↦ rw z (get_elem?-lt os (sip_hash ip % length os) (mod-lt (sip_hash ip) h))
      | inr n ↦
          let in_ring : InRange (length os) ring = ring-InRange sip_hash os ws in
          let (p, here, inside) = get_elem?-InRange (length os) ring idx in_ring (ground arith) in
          rw (n, here) (get_elem?-lt os p.1 inside)
    ]
