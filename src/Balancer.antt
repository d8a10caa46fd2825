-- ===== src/Balancer.antt =====
-- The load balancer: crates/cdn-proxy/src/balancer.rs, and the configuration that it reads, of
-- crates/cdn-common/src/types.rs. This file has the state and the bookkeeping; the children have
-- the selection algorithms, `select_peer` and the proofs. `Instant::now()` is an argument, in
-- seconds; an f64 is a value of the parameter `Floats` of Balancer/Weight.antt.
pub mod Select
pub mod Slots
pub mod RoundRobin
pub mod Least
pub mod Conns
pub mod Window
pub mod Weight
pub mod Ring
pub mod Peer
pub mod Candidates
pub mod Eligible
pub mod Bounds
pub mod Total
pub mod Answers
mod Tests
use nozdormu.Prelude.{
  ℕ, suc, ◌+◌, ◌-◌, ◌%◌, ◌^◌, Bool, true, false, Option, none, some, List, [], ◌∷◌, ◌++◌, ltb, leb,
  if◌then◌else◌, unwrap_or, length, drop,
}
use nozdormu.Prelude.Text.{Text}
use nozdormu.Prelude.Map.{Map, lookup, insert}
use nozdormu.Health.{HealthChecker, u32_mod, make_key}

pub data OriginProtocol : Type 0 where
  http https : OriginProtocol

pub record OriginConfig : Type 0 where
  pub id : Text
  pub host : Text
  pub port : ℕ  -- u16
  pub weight : ℕ  -- u32
  pub protocol : OriginProtocol
  pub backup : Bool
  pub enabled : Bool
  pub sni : Option Text

pub data LbAlgorithm : Type 0 where
  round_robin ip_hash random least_conn : LbAlgorithm

-- `OriginStats`, with the type of a latency (f64) as a parameter
pub record OriginStats (L : Type 0) : Type 0 where
  pub samples : List (L × Bool)
  pub window_size : ℕ
  pub last_update : ℕ

-- The fields of `DynamicBalancer` that it changes, with the generator's state of its thread.
pub record Balancer (L : Type 0) : Type 0 where
  pub rr_counter : ℕ  -- AtomicUsize
  pub active_conns : Map ℕ  -- AtomicU32
  pub origin_stats : Map (OriginStats L)
  pub rand_state : ℕ

-- The closure of `fetch_update`: no change at zero
pub dec_conns : Text → Option ℕ → Map ℕ → Map ℕ
dec_conns key none m = m
dec_conns key (some v) m = if ltb 0 v then insert key (v - 1) m else m

module _ {L : Type 0} where
  unfoldable pub conn_inc : Text → Text → Balancer L → Balancer L
  unfolding make_key
  conn_inc site_id origin_id b =
      let key = make_key site_id origin_id in
      record b {
        active_conns =
            insert key ((unwrap_or (lookup key b.active_conns) 0 + 1) % u32_mod) b.active_conns;
      }

  unfoldable pub conn_dec : Text → Text → Balancer L → Balancer L
  unfolding make_key dec_conns
  conn_dec site_id origin_id b =
      let key = make_key site_id origin_id in
      record b { active_conns = dec_conns key (lookup key b.active_conns) b.active_conns }

  unfoldable pub active_conn_count : Balancer L → Text → Text → ℕ
  unfolding make_key
  active_conn_count b site_id origin_id =
      unwrap_or (lookup (make_key site_id origin_id) b.active_conns) 0

  -- One sample into the ring buffer of an origin
  pub push_sample : L → Bool → ℕ → OriginStats L → OriginStats L
  push_sample latency is_error now stats =
      let kept =
        if leb stats.window_size (length stats.samples)
        then drop 1 stats.samples
        else stats.samples in
      record stats { samples = kept ++ ((latency, is_error) ∷ []); last_update = now }

  unfoldable pub record_response : Text → Text → L → Bool → ℕ → ℕ → Balancer L → Balancer L
  unfolding make_key push_sample
  record_response site_id origin_id latency is_error window_size now b =
      let key = make_key site_id origin_id in
      let fresh : OriginStats L = record {
        samples = [];
        window_size = window_size;
        last_update = now;
      } in
      record b {
        origin_stats =
            insert key
              (push_sample latency is_error now (unwrap_or (lookup key b.origin_stats) fresh))
              b.origin_stats;
      }
