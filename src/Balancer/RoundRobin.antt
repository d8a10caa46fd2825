-- ===== src/Balancer/RoundRobin.antt =====
-- Weighted round robin is fair: balancer.rs, `select_round_robin`.
use native.Mathlib.Nat.{mod-lt, mod-add-mod, mod-eq_of_lt, mod_self}
use mathlib.Core.List.{map-append}
use nozdormu.Prelude.{
  ℕ, zero, suc, ◌+◌, ◌-◌, ◌%◌, ◌≤◌, ◌<◌, ◌≡◌, refl, Option, some, List, [], ◌∷◌, ◌++◌, length,
  get_elem?, take, drop, map, arith, last?, ◌∙◌, ap, ap₂, length-drop, sym,
}
use nozdormu.Prelude.Decimal.{u64_mod}
use nozdormu.Health.{u32_mod}
use nozdormu.Balancer.{OriginConfig, Balancer}
use nozdormu.Balancer.Select.{select_round_robin}
use nozdormu.Balancer.Slots.{table, total, sum-eq-total, walk-slot, length-table}

drop-cons :
    {A : Type 0} (i : ℕ) (xs : List A)
    → i < length xs
    → (x : A) × (get_elem? xs i ≡ some x) × (drop i xs ≡ x ∷ drop (suc i) xs)
drop-cons i [] h = absurd (omega arith)
drop-cons zero (x ∷ xs) h = (x, refl, refl)
drop-cons (suc i) (x ∷ xs) h = drop-cons i xs (omega arith)

take_all : {A : Type 0} (n : ℕ) (xs : List A) → length xs ≡ n → take n xs ≡ xs
take_all zero [] h = refl
take_all zero (x ∷ xs) h = absurd (omega arith)
take_all (suc n) [] h = refl
take_all (suc n) (x ∷ xs) h = ap (λ t. x ∷ t) (take_all n xs (omega arith))

next-mod : (c w : ℕ) → suc (c % w) < w → (c + 1) % w ≡ suc (c % w)
next-mod c w h =
    sym (mod-add-mod c w 1) ∙ ap (λ t. t % w) {y = suc (c % w)} (omega arith) ∙ mod-eq_of_lt h

wrap-mod : (c w : ℕ) → 0 < w → (c + (w - c % w)) % w ≡ 0
wrap-mod c w h =
    sym (mod-add-mod c w (w - c % w))
    ∙ ap (λ t. t % w) {y = w} (omega (arith, mod-lt c h))
    ∙ mod_self w

module _ {L : Type 0} (candidates : List OriginConfig) (eff_weights : List ℕ) where
  -- n selections in a row, and the balancer after them
  unfoldable pub turns : ℕ → Balancer L → List (Option OriginConfig)
  turns zero b = []
  turns (suc n) b =
      let (chosen, b') = select_round_robin b candidates eff_weights in chosen ∷ turns n b'

  after : ℕ → Balancer L → Balancer L
  after zero b = b
  after (suc n) b = after n (select_round_robin b candidates eff_weights).1

  module _ (same_length : length candidates ≡ length eff_weights)
      (some_weight : 0 < total eff_weights) (fits : total eff_weights < u32_mod) where
    -- A selection takes the slot at the counter, and counts on.
    select_round_robin-slot :
        (b : Balancer L)
        → (select_round_robin b candidates eff_weights).0
          ≡ get_elem? (table candidates eff_weights) (b.rr_counter % total eff_weights)
    unfolding select_round_robin
    select_round_robin-slot b = ground (
      arith,
      sum-eq-total eff_weights fits,
      walk-slot (last? candidates) (b.rr_counter % total eff_weights) candidates eff_weights
          same_length (mod-lt b.rr_counter some_weight) fits,
    )

    select_round_robin-counter :
        (b : Balancer L)
        → (select_round_robin b candidates eff_weights).1.rr_counter ≡ (b.rr_counter + 1) % u64_mod
    unfolding select_round_robin
    select_round_robin-counter b = ground arith

    in_table :
        (b : Balancer L) → b.rr_counter % total eff_weights < length (table candidates eff_weights)
    in_table b =
        omega
          (arith, length-table candidates eff_weights same_length, mod-lt b.rr_counter some_weight)

    next-slot :
        (b : Balancer L)
        → suc (b.rr_counter % total eff_weights) < total eff_weights
        → b.rr_counter + 1 < u64_mod
        → (select_round_robin b candidates eff_weights).1.rr_counter % total eff_weights
          ≡ suc (b.rr_counter % total eff_weights)
    next-slot b room small =
        rw (select_round_robin-counter b, mod-eq_of_lt small)
          (next-mod b.rr_counter (total eff_weights) room)

    turns-slots :
        (n : ℕ) (b : Balancer L)
        → b.rr_counter % total eff_weights + n ≤ total eff_weights
        → b.rr_counter + n < u64_mod
        → turns n b
          ≡ map some
              (take n (drop (b.rr_counter % total eff_weights) (table candidates eff_weights)))
    unfolding turns
    turns-slots zero b room small = refl
    turns-slots (suc zero) b room small =
        let (o, found, split) =
          drop-cons (b.rr_counter % total eff_weights) (table candidates eff_weights)
            (in_table b) in
        rw (select_round_robin-slot b, found, split)
    turns-slots (suc (suc n)) b room small =
        let (o, found, split) =
          drop-cons (b.rr_counter % total eff_weights) (table candidates eff_weights)
            (in_table b) in
        let b' = (select_round_robin b candidates eff_weights).1 in
        let next = next-slot b (omega arith) (omega arith) in
        let counter = select_round_robin-counter b in
        let ih = turns-slots (suc n) b' (omega arith) (omega arith) in
        ap₂ ◌∷◌ (select_round_robin-slot b ∙ found)
          (ih ∙ ap (λ k. map some (take (suc n) (drop k (table candidates eff_weights)))) next)
        ∙ ap (λ t. map some (take (suc (suc n)) t)) (sym split)

    after-counter :
        (n : ℕ) (b : Balancer L)
        → b.rr_counter + n < u64_mod
        → (after n b).rr_counter ≡ b.rr_counter + n
    unfolding after
    after-counter zero b small = omega arith
    after-counter (suc n) b small =
        let counter = select_round_robin-counter b in
        after-counter n (select_round_robin b candidates eff_weights).1 (omega arith)
        ∙ (omega arith)

    turns-append : (m n : ℕ) (b : Balancer L) → turns (m + n) b ≡ turns m b ++ turns n (after m b)
    unfolding turns after
    turns-append zero n b = ap (λ k. turns k b) (omega arith)
    turns-append (suc m) n b =
        let (o, b') = select_round_robin b candidates eff_weights in
        ap (λ k. turns k b) {y = suc (m + n)} (omega arith) ∙ ap (λ t. o ∷ t) (turns-append m n b')

    -- The turns up to the end of the table, and those from its beginning.
    first_part :
        (b : Balancer L)
        → b.rr_counter + total eff_weights < u64_mod
        → turns (total eff_weights - b.rr_counter % total eff_weights) b
          ≡ map some (drop (b.rr_counter % total eff_weights) (table candidates eff_weights))
    first_part b small =
        let r = b.rr_counter % total eff_weights in
        turns-slots (total eff_weights - r) b (omega (arith, in_table b)) (omega arith)
        ∙ ap (map some) (
            take_all (total eff_weights - r) (drop r (table candidates eff_weights)) (
              omega (
                arith,
                length-drop r (table candidates eff_weights),
                length-table candidates eff_weights same_length,
              )))

    second_part :
        (b : Balancer L)
        → b.rr_counter + total eff_weights < u64_mod
        → turns
            (b.rr_counter % total eff_weights)
            (after (total eff_weights - b.rr_counter % total eff_weights) b)
          ≡ map some (take (b.rr_counter % total eff_weights) (table candidates eff_weights))
    second_part b small =
        let r = b.rr_counter % total eff_weights in
        let b' = after (total eff_weights - r) b in
        let below = mod-lt b.rr_counter some_weight in
        let counter : b'.rr_counter ≡ b.rr_counter + (total eff_weights - r) =
          after-counter (total eff_weights - r) b (omega arith) in
        let start : b'.rr_counter % total eff_weights ≡ 0 =
          ap (λ k. k % total eff_weights) counter
          ∙ wrap-mod b.rr_counter (total eff_weights) some_weight in
        turns-slots r b' (omega arith) (omega arith)
        ∙ ap (λ k. map some (take r (drop k (table candidates eff_weights)))) start

    -- One round of selections, as many as the weights add up to, gives every origin as many turns
    -- as its weight: the answers are the table of slots, read round from the slot at the counter.
    pub select_round_robin-fair :
        (b : Balancer L)
        → b.rr_counter + total eff_weights < u64_mod
        → turns (total eff_weights) b
          ≡ map some (
              drop (b.rr_counter % total eff_weights) (table candidates eff_weights)
              ++ take (b.rr_counter % total eff_weights) (table candidates eff_weights))
    select_round_robin-fair b small =
        let r = b.rr_counter % total eff_weights in
        let below = mod-lt b.rr_counter some_weight in
        ap (λ k. turns k b) {y = (total eff_weights - r) + r} (omega arith)
        ∙ turns-append (total eff_weights - r) r b
        ∙ ap₂ ◌++◌ (first_part b small) (second_part b small)
        ∙ sym (
            map-append some (drop r (table candidates eff_weights))
              (take r (table candidates eff_weights)))
