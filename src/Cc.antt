-- ===== src/Cc.antt =====
-- The request rate limiter: crates/cdn-middleware/src/cc/ (mod.rs, counter.rs, state.rs, action.rs).
-- This file has the configuration, the rules and the counter keys (counter.rs). State is the bans
-- and counters, Token the challenge cookie, Page the challenge page, Check the engine; Counting and Limit prove. An address is
-- its printed text; CRC-32 is the parameter `crc32`.
pub mod State
pub mod Token
pub mod Page
pub mod Check
pub mod Counting
pub mod Limit
mod Tests
use nozdormu.Prelude.{
  ℕ, zero, suc, ◌+◌, ◌-◌, ◌/◌, ◌%◌, Bool, ◌&&◌, Option, none, some, List, [], ◌∷◌, ◌++◌, ltb, leb,
  ◌==◌, if◌then◌else◌,
}
use nozdormu.Prelude.Text.{Text, codes, starts_with, byte_len}

-- `CcAction`
pub data CcAction : Type 0 where
  block challenge log delay : CcAction

-- `CcKeyType`
pub data CcKeyType : Type 0 where
  ip ip_url ip_path : CcKeyType

pub record CcRule : Type 0 where
  pub path : Text
  pub rate : ℕ
  pub window : ℕ
  pub block_duration : ℕ
  pub action : CcAction
  pub key_type : CcKeyType

pub record CcConfig : Type 0 where
  pub enabled : Bool
  pub default_rate : ℕ
  pub default_window : ℕ
  pub default_block_duration : ℕ
  pub default_action : CcAction
  pub rules : List CcRule

abbrev pub hex_digit : ℕ → ℕ
hex_digit n = if ltb n 10 then b'0' + n else b'a' + (n - 10)

-- The last `k` hexadecimal digits: `{:08x}` of a u32, for eight of them
unfoldable pub hex : ℕ → ℕ → Text
hex zero n = []
hex (suc k) n = hex k (n / 16) ++ (hex_digit (n % 16) ∷ [])

unfoldable pub make_counter_key : (Text → ℕ) → Text → Text → Text → Text → CcKeyType → Text
unfolding hex
make_counter_key crc32 site_id client_ip uri path key_type =
    let prefix = codes "nozdormu:cc:counter:" ++ (site_id ++ (b':' ∷ client_ip)) in
    elim key_type [
      | ip ↦ prefix
      | ip_url ↦ prefix ++ (b':' ∷ hex 8 (crc32 uri))
      | ip_path ↦ prefix ++ (b':' ∷ hex 8 (crc32 path))
    ]

-- `max_by_key` over the rules whose path is a prefix: the last of the greatest, from the best so far
unfoldable pub longest_rule : Text → Option CcRule → List CcRule → Option CcRule
longest_rule path best [] = best
longest_rule path best (r ∷ rules) =
    longest_rule path
      (if starts_with r.path path
        then elim best [
          | none ↦ some r
          | some b ↦ if leb (byte_len b.path) (byte_len r.path) then some r else some b
        ]
        else best)
      rules

unfoldable pub match_rule : Text → List CcRule → Option CcRule
unfolding longest_rule
match_rule path rules = longest_rule path none rules

unfoldable pub should_sync_redis : ℕ → Bool
should_sync_redis count = leb 10 count && count % 10 == 0

abbrev pub make_redis_key : Text → Text
make_redis_key local_key = local_key
