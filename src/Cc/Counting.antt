-- ===== src/Cc/Counting.antt =====
-- The counter of a window (state.rs, `increment`).
use nozdormu.Prelude.{
  ℕ, zero, suc, ◌+◌, ◌%◌, ◌≤◌, ◌<◌, ◌≡◌, refl, none, some, List, [], ◌∷◌, ◌++◌, length, get_elem?,
  arith,
}
use nozdormu.Prelude.Text.{Text}
use nozdormu.Prelude.Decimal.{u64_mod}
use nozdormu.Cc.State.{TtlCache, State, set, fetch_add_one, entry, increment}

get_elem?-set :
    (xs : List ℕ) (i k v : ℕ) → get_elem? xs i ≡ some k → get_elem? (set xs i v) i ≡ some v
unfolding set
get_elem?-set [] i k v h = cc
get_elem?-set (x ∷ xs) zero k v h = refl
get_elem?-set (x ∷ xs) (suc i) k v h = get_elem?-set xs i k v h

get_elem?-last : (xs : List ℕ) (v : ℕ) → get_elem? (xs ++ (v ∷ [])) (length xs) ≡ some v
get_elem?-last [] v = refl
get_elem?-last (x ∷ xs) v = get_elem?-last xs v

module _ (bans : TtlCache (Unit {0})) (counts : TtlCache ℕ) where
  -- From time `t` to `end`, the counter stands at `k`, under a handle.
  abbrev pub Counts : Text → ℕ → ℕ → ℕ → State bans counts → Type 0
  Counts key t end k s =
      (handle : ℕ) × (get_elem? s.atoms handle ≡ some k)
      × ((u : ℕ) → t ≤ u → u < end → counts.get u key s.counters ≡ some handle)

  -- The first request of a window creates the counter.
  pub increment-fresh :
      (now window : ℕ) (key : Text) (s : State bans counts)
      → counts.get now key s.counters ≡ none
      → 0 < window
      → (s' : State bans counts) × (increment bans counts now key window s ≡ (1, s'))
        × (s'.blocked ≡ s.blocked)
        × Counts key now (now + window) 1 s'
  unfolding increment entry fetch_add_one
  increment-fresh now window key s e w = (
    record s {
      counters = counts.put now key window (length s.atoms) s.counters;
      atoms = set (s.atoms ++ (0 ∷ [])) (length s.atoms) 1;
    },
    rw (increment, entry, e, get_elem?-last s.atoms 0) refl,
    refl,
    (
      length s.atoms,
      get_elem?-set (s.atoms ++ (0 ∷ [])) (length s.atoms) 0 1 (get_elem?-last s.atoms 0),
      λ u lo hi. counts.get-put_self now u window key (length s.atoms) s.counters e lo hi,
    ),
  )

  -- A later request of the window adds one.
  pub increment-counting :
      (now t end window k : ℕ) (key : Text) (s : State bans counts)
      → Counts key t end k s
      → t ≤ now
      → now < end
      → k + 1 < u64_mod
      → (s' : State bans counts) × (increment bans counts now key window s ≡ (k + 1, s'))
        × (s'.blocked ≡ s.blocked)
        × Counts key now end (k + 1) s'
  unfolding increment entry fetch_add_one
  increment-counting now t end window k key s (handle, value, there) lo hi small =
      let next : (k + 1) % u64_mod ≡ k + 1 = omega arith in
      (
        record s { atoms = set s.atoms handle (k + 1) },
        rw (increment, entry, there now lo hi, value, next) refl,
        refl,
        (handle, get_elem?-set s.atoms handle k (k + 1) value, λ u a b. there u (omega arith) b),
      )
