-- ===== src/Rand.antt =====
-- The random numbers of the balancer: crates/cdn-proxy/src/utils/rand.rs, a xorshift generator on
-- a u64 for each thread. The seed (time and thread id) is the first state, an argument.
use Prim.Native.Nat.{bit_xor}
use nozdormu.Prelude.{ℕ, ◌*◌, ◌/◌, ◌%◌, ◌^◌, ◌<◌, ◌==◌, if◌then◌else◌, arith}
use nozdormu.Prelude.Decimal.{u64_mod}

-- The new state, which is also the number.
pub next_u64 : ℕ → ℕ
next_u64 state =
    let a = bit_xor state (state * 2 ^ 13 % u64_mod) in
    let b = bit_xor a (a / 2 ^ 7) in bit_xor b (b * 2 ^ 17 % u64_mod)

-- `u32(..end)`: the number and the new state; nothing is drawn for an empty range.
unfoldable pub rand_u32 : ℕ → ℕ → ℕ × ℕ
unfolding next_u64
rand_u32 end state =
    if end == 0 then (0, state) else (next_u64 state % 2 ^ 32 % end, next_u64 state)

-- `usize(..end)`, at 64 bits
unfoldable pub rand_usize : ℕ → ℕ → ℕ × ℕ
unfolding next_u64
rand_usize end state = if end == 0 then (0, state) else (next_u64 state % end, next_u64 state)

pub rand_u32-lt : (end state : ℕ) → 0 < end → (rand_u32 end state).0 < end
unfolding rand_u32
rand_u32-lt end state h = ground arith

pub rand_usize-lt : (end state : ℕ) → 0 < end → (rand_usize end state).0 < end
unfolding rand_usize
rand_usize-lt end state h = ground arith
