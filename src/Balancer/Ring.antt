-- ===== src/Balancer/Ring.antt =====
-- Consistent hashing: balancer.rs, `build_hash_ring_weighted` and `select_ip_hash`. The hash of a
-- text (std's SipHash) is the parameter `sip_hash`. Among equal points the order of the sort and
-- the match of the search are not fixed by std: here the sort is stable and the first match is taken.
use nozdormu.Prelude.{
  ℕ, zero, suc, ◌+◌, ◌*◌, ◌%◌, Option, List, [], ◌∷◌, ◌++◌, ltb, leb, if◌then◌else◌, length,
  get_elem?, ◌>>=◌, ◌==◌,
}
use nozdormu.Prelude.Text.{Text}
use nozdormu.Prelude.Decimal.{format}
use nozdormu.Health.{u32_mod}
use nozdormu.Balancer.{OriginConfig}

abbrev pub vnodes_per_weight : ℕ
vnodes_per_weight = 40

-- A point and the index of its candidate
abbrev pub Ring : Type 0
Ring = List (ℕ × ℕ)

unfoldable pub insert_point : ℕ × ℕ → Ring → Ring
insert_point p [] = p ∷ []
insert_point p (q ∷ qs) = if leb p.0 q.0 then p ∷ q ∷ qs else q ∷ insert_point p qs

-- `sort_unstable_by_key(point)`
unfoldable pub sort_points : Ring → Ring
unfolding insert_point
sort_points [] = []
sort_points (p ∷ ps) = insert_point p (sort_points ps)

-- The first index whose point is not below the hash: the `Ok` or `Err` of the binary search.
unfoldable pub search_point : ℕ → Ring → ℕ
search_point h [] = 0
search_point h (q ∷ qs) = if ltb q.0 h then suc (search_point h qs) else 0

module _ (sip_hash : Text → ℕ) where
  -- The points `i`, `i + 1`, … of one candidate
  unfoldable pub virtual_nodes : Text → ℕ → ℕ → ℕ → Ring
  virtual_nodes id idx i zero = []
  virtual_nodes id idx i (suc n) =
      (sip_hash (id ++ (b'-' ∷ format i)), idx) ∷ virtual_nodes id idx (i + 1) n

  -- The loop over the candidates; a missing weight would be a panic, and ends the model's loop.
  unfoldable pub points_from : ℕ → List OriginConfig → List ℕ → Ring
  unfolding virtual_nodes
  points_from idx [] ws = []
  points_from idx (o ∷ os) [] = []
  points_from idx (o ∷ os) (w ∷ ws) =
      virtual_nodes o.id idx 0 (w * vnodes_per_weight % u32_mod) ++ points_from (suc idx) os ws

  unfoldable pub build_hash_ring_weighted : List OriginConfig → List ℕ → Ring
  unfolding sort_points points_from
  build_hash_ring_weighted candidates eff_weights =
      sort_points (points_from 0 candidates eff_weights)

  -- `ip` is the printed address.
  unfoldable pub select_ip_hash : List OriginConfig → List ℕ → Text → Option OriginConfig
  unfolding build_hash_ring_weighted search_point
  select_ip_hash candidates eff_weights ip =
      let ring = build_hash_ring_weighted candidates eff_weights in
      if length ring == 0
      then get_elem? candidates (sip_hash ip % length candidates)
      else (let found = search_point (sip_hash ip) ring in
          let idx = if leb (length ring) found then 0 else found in
          get_elem? ring idx >>= λ p. get_elem? candidates p.1)
