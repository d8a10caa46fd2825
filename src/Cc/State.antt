-- ===== src/Cc/State.antt =====
-- Bans and counters: state.rs, `CcState`. The caches of the moka crate are the interface `TtlCache`:
-- an entry is there from its creation until its own time to live is over. moka may also drop
-- entries of a full cache, so the laws are those of a cache below its capacity. Times are in
-- nanoseconds. An `Arc<AtomicU64>` is a handle, an index of `atoms`.
use nozdormu.Prelude.{
  ℕ, zero, suc, ◌+◌, ◌*◌, ◌%◌, ◌^◌, ◌≤◌, ◌<◌, ◌≡◌, ◌≢◌, Bool, Option, none, some, List, [], ◌∷◌,
  ◌++◌, length, get_elem?, is_some, unwrap_or,
}
use nozdormu.Prelude.Text.{Text}
use nozdormu.Prelude.Decimal.{u64_mod}

pub record TtlCache (V : Type 0) : Type 1 where
  pub Cache : Type 0
  pub empty : Cache
  pub get : ℕ → Text → Cache → Option V
  pub put : ℕ → Text → ℕ → V → Cache → Cache
  pub delete : Text → Cache → Cache
  pub get-empty : (t : ℕ) (k : Text) → get t k empty ≡ none
  pub get-put_self :
      (now t ttl : ℕ) (k : Text) (v : V) (c : Cache)
      → get now k c ≡ none
      → now ≤ t
      → t < now + ttl
      → get t k (put now k ttl v c) ≡ some v
  pub get-put_expired :
      (now t ttl : ℕ) (k : Text) (v : V) (c : Cache)
      → get now k c ≡ none
      → now + ttl ≤ t
      → get t k (put now k ttl v c) ≡ none
  pub get-put_other :
      (now t ttl : ℕ) (k j : Text) (v : V) (c : Cache)
      → k ≢ j
      → get t j (put now k ttl v c) ≡ get t j c
  pub get-delete : (t : ℕ) (k : Text) (c : Cache) → get t k (delete k c) ≡ none

-- `Duration::from_secs`
abbrev pub from_secs : ℕ → ℕ
from_secs s = s * 10 ^ 9

pub record CcState (B K : Type 0) : Type 0 where
  pub blocked : B
  pub counters : K
  pub atoms : List ℕ

unfoldable pub block_key : Text → Text → Text
block_key site_id client_ip = site_id ++ (0 ∷ client_ip)

-- A write to one of the atomic numbers
unfoldable pub set : List ℕ → ℕ → ℕ → List ℕ
set [] i v = []
set (x ∷ xs) zero v = v ∷ xs
set (x ∷ xs) (suc i) v = x ∷ set xs i v

unfoldable pub fetch_add_one : {B K : Type 0} → CcState B K → ℕ → ℕ × CcState B K
unfolding set
fetch_add_one s handle =
    let count = (unwrap_or (get_elem? s.atoms handle) 0 + 1) % u64_mod in
    (count, record s { atoms = set s.atoms handle count })

module _ (bans : TtlCache (Unit {0})) (counts : TtlCache ℕ) where
  abbrev pub State : Type 0
  State = CcState bans.Cache counts.Cache

  abbrev pub new : State
  new = record { blocked = bans.empty; counters = counts.empty; atoms = [] }

  unfoldable pub block_ip : ℕ → Text → Text → ℕ → State → State
  block_ip now site_id client_ip duration s = record s {
    blocked = bans.put now (block_key site_id client_ip) duration tt s.blocked;
  }

  unfoldable pub unblock_ip : Text → Text → State → State
  unblock_ip site_id client_ip s = record s {
    blocked = bans.delete (block_key site_id client_ip) s.blocked;
  }

  unfoldable pub is_blocked : ℕ → Text → Text → State → Bool
  is_blocked now site_id client_ip s =
      is_some (bans.get now (block_key site_id client_ip) s.blocked)

  -- `entry_by_ref(key).or_insert_with(…)`, and the handle
  unfoldable pub entry : ℕ → Text → ℕ → State → ℕ × State
  entry now key window s = elim (counts.get now key s.counters) [
    | some handle ↦ (handle, s)
    | none ↦ (
      length s.atoms,
      record s {
        counters = counts.put now key window (length s.atoms) s.counters;
        atoms = s.atoms ++ (0 ∷ []);
      },
    )
  ]

  unfoldable pub increment : ℕ → Text → ℕ → State → ℕ × State
  unfolding entry fetch_add_one
  increment now key window s = let (handle, s') = entry now key window s in fetch_add_one s' handle

  unfoldable pub get_count : ℕ → Text → State → ℕ
  get_count now key s = elim (counts.get now key s.counters) [
    | some handle ↦ unwrap_or (get_elem? s.atoms handle) 0
    | none ↦ 0
  ]
