-- ===== src/Balancer/Candidates.antt =====
-- What `select_peer` promises of the origin that it answers (balancer.rs).
use mathlib.Core.List.{Memᴰ}
use nozdormu.Prelude.{
  ℕ, ◌+◌, ◌%◌, ◌≡◌, ◌⊎◌, ◌&&◌, ◌||◌, Option, none, some, List, [], ◌∷◌, if◌then◌else◌, length,
  get_elem?, last?, arith, ◌>>=◌, Bool-cases, ltb, ◌==◌, leb, inl, inr,
}
use nozdormu.Prelude.Text.{Text}
use nozdormu.Prelude.Member.{mem-get_elem?, mem-last?}
use nozdormu.Health.{u32_mod}
use nozdormu.Balancer.{
  OriginConfig, LbAlgorithm, round_robin, ip_hash, random, least_conn, Balancer, active_conn_count,
}
use nozdormu.Balancer.Select.{
  walk, sum, least, select_round_robin, select_weighted_random, select_least_conn,
}
use nozdormu.Rand.{rand_u32, rand_usize}
use nozdormu.Balancer.Ring.{build_hash_ring_weighted, search_point, select_ip_hash}
use nozdormu.Balancer.Weight.{Floats}
use nozdormu.Balancer.Peer.{select}

later :
    (x : OriginConfig) (os : List OriginConfig) (last : Option OriginConfig) (o : OriginConfig)
    → Memᴰ o os ⊎ (last ≡ some o)
    → Memᴰ o (x ∷ os) ⊎ (last ≡ some o)
later x os last o (inl m) = inl (Memᴰ.tail m)
later x os last o (inr e) = inr e

either_mem :
    (os : List OriginConfig) (o : OriginConfig) → Memᴰ o os ⊎ (last? os ≡ some o) → Memᴰ o os
either_mem os o (inl m) = m
either_mem os o (inr e) = mem-last? os o e

mem_behind :
    (best x o : OriginConfig) (os : List OriginConfig) → Memᴰ o (best ∷ os) → Memᴰ o (best ∷ x ∷ os)
mem_behind best x o os (Memᴰ.head e) = Memᴰ.head e
mem_behind best x o os (Memᴰ.tail m) = Memᴰ.tail (Memᴰ.tail m)

mem-walk :
    (last : Option OriginConfig) (target cumulative : ℕ) (os : List OriginConfig) (ws : List ℕ)
    (o : OriginConfig)
    → walk last target cumulative os ws ≡ some o
    → Memᴰ o os ⊎ (last ≡ some o)
unfolding walk
mem-walk last target cumulative [] ws o e = inr e
mem-walk last target cumulative (x ∷ os) [] o e = cc
mem-walk last target cumulative (x ∷ os) (w ∷ ws) o e =
    let sofar = (cumulative + w) % u32_mod in
    elim (Bool-cases (ltb target sofar)) [
      | inl hit ↦ inl (Memᴰ.head (let found : some x ≡ some o = rw (hit, walk) at e in cc))
      | inr miss ↦ later x os last o (mem-walk last target sofar os ws o (rw (miss, walk) at e))
    ]

mem-least :
    (conns : Text → ℕ) (best : OriginConfig) (bw bc : ℕ) (os : List OriginConfig) (ws : List ℕ)
    (o : OriginConfig)
    → least conns best bw bc os ws ≡ some o
    → Memᴰ o (best ∷ os)
unfolding least
mem-least conns best bw bc [] ws o e = Memᴰ.head (ground arith)
mem-least conns best bw bc (x ∷ os) [] o e = cc
mem-least conns best bw bc (x ∷ os) (w ∷ ws) o e =
    elim (Bool-cases (ltb (conns x.id) bc || (conns x.id == bc && ltb bw w))) [
      | inl better ↦ Memᴰ.tail (mem-least conns x w (conns x.id) os ws o (rw (better, least) at e))
      | inr worse ↦
          mem_behind best x o os (mem-least conns best bw bc os ws o (rw (worse, least) at e))
    ]

module _ {L : Type 0} (b : Balancer L) (os : List OriginConfig) (ws : List ℕ)
    (o : OriginConfig) where
  mem-round_robin : (select_round_robin b os ws).0 ≡ some o → Memᴰ o os
  unfolding select_round_robin
  mem-round_robin e = elim (Bool-cases (sum ws == 0)) [
    | inl z ↦ mem-get_elem? os (b.rr_counter % length os) o (ground arith)
    | inr n ↦ either_mem os o (mem-walk (last? os) (b.rr_counter % sum ws) 0 os ws o (ground arith))
  ]

  mem-weighted_random : (select_weighted_random b os ws).0 ≡ some o → Memᴰ o os
  unfolding select_weighted_random
  mem-weighted_random e = elim (Bool-cases (sum ws == 0)) [
    | inl z ↦ mem-get_elem? os (rand_usize (length os) b.rand_state).0 o (ground arith)
    | inr n ↦
        either_mem os o
          (mem-walk (last? os) (rand_u32 (sum ws) b.rand_state).0 0 os ws o (ground arith))
  ]

mem-least_conn :
    {L : Type 0} (b : Balancer L) (os : List OriginConfig) (ws : List ℕ) (site_id : Text)
    (o : OriginConfig)
    → select_least_conn b os ws site_id ≡ some o
    → Memᴰ o os
unfolding select_least_conn
mem-least_conn b [] ws site_id o e = cc
mem-least_conn b (x ∷ os) [] site_id o e = Memᴰ.head (ground arith)
mem-least_conn b (x ∷ os) (w ∷ ws) site_id o e =
    mem-least (active_conn_count b site_id) x w (active_conn_count b site_id x.id) os ws o e

mem_bind :
    (os : List OriginConfig) (found : Option (ℕ × ℕ)) (o : OriginConfig)
    → (found >>= λ p. get_elem? os p.1) ≡ some o
    → Memᴰ o os
mem_bind os none o e = cc
mem_bind os (some p) o e = mem-get_elem? os p.1 o e

mem-ip_hash :
    (sip_hash : Text → ℕ) (os : List OriginConfig) (ws : List ℕ) (ip : Text) (o : OriginConfig)
    → select_ip_hash sip_hash os ws ip ≡ some o
    → Memᴰ o os
unfolding select_ip_hash
mem-ip_hash sip_hash os ws ip o e =
    let ring = build_hash_ring_weighted sip_hash os ws in
    let found = search_point (sip_hash ip) ring in
    elim (Bool-cases (length ring == 0)) [
      | inl z ↦ mem-get_elem? os (sip_hash ip % length os) o (ground arith)
      | inr n ↦
          mem_bind os (get_elem? ring (if leb (length ring) found then 0 else found)) o
            (ground arith)
    ]

module _ (fl : Floats) (sip_hash : Text → ℕ) where
  open fl use {F}

  -- Whatever the algorithm, the origin selected is one of the candidates.
  pub mem-select :
      (algorithm : LbAlgorithm) (b : Balancer F) (os : List OriginConfig) (ws : List ℕ)
      (ip : Option Text) (site_id : Text) (o : OriginConfig)
      → (select fl sip_hash algorithm b os ws ip site_id).0 ≡ some o
      → Memᴰ o os
  unfolding select
  mem-select round_robin b os ws ip site_id o e = mem-round_robin b os ws o e
  mem-select ip_hash b os ws ip site_id o e = mem-ip_hash sip_hash os ws _ o e
  mem-select random b os ws ip site_id o e = mem-weighted_random b os ws o e
  mem-select least_conn b os ws ip site_id o e = mem-least_conn b os ws site_id o e
