-- ===== src/Balancer/Tests.antt =====
-- Runs of balancer.rs, and its theorems at inputs that meet their hypotheses. The arithmetic of the
-- examples is in thousandths.
use nozdormu.Prelude.{
  ℕ, ◌+◌, ◌-◌, ◌*◌, ◌/◌, ◌≤◌, ◌<◌, max, ◌≡◌, refl, Bool, true, false, Option, none, some, List, [],
  ◌∷◌, ◌++◌, map, drop, take, length, leb, arith,
}
use nozdormu.Prelude.Text.{Text, codes}
use nozdormu.Prelude.Map.{lookup, insert}
use nozdormu.Health.{u32_mod, is_healthy, new, make_key}
use nozdormu.Balancer.{
  OriginConfig, http, round_robin, Balancer, OriginStats, active_conn_count, conn_inc, conn_dec,
}
use nozdormu.Balancer.Select.{select_round_robin, select_least_conn}
use nozdormu.Balancer.Slots.{table}
use nozdormu.Balancer.RoundRobin.{turns, select_round_robin-fair}
use nozdormu.Balancer.Least.{Weighted, pairs, IsFirstBest, select_least_conn-IsFirstBest}
use nozdormu.Balancer.Conns.{Change, opened, closed, ConnCall, perform_all}
use nozdormu.Balancer.Window.{record_all, record_response-window, sample_of, last_n}
use nozdormu.Balancer.Weight.{Floats, AdaptiveWeightConfig, effective_weight}
use nozdormu.Balancer.Peer.{
  Site, plain, Peer, selected, select_peer, candidates_of, connect, weights, select, make_peer,
}
use nozdormu.Balancer.Eligible.{IsEligible, select_peer-IsEligible}

mul-bound : (x y : ℕ) → x ≤ 1000 → y ≤ 1000 → x * y / 1000 ≤ 1000
mul-bound x y h k = let p : x * y ≤ 1000 * 1000 = grind arith in omega arith

to_u32-bound : (w x : ℕ) → w < u32_mod → x ≤ 1000 → w * 1000 * x / 1000 / 1000 ≤ w
to_u32-bound w x h k = let p : w * x ≤ w * 1000 = grind arith in omega arith

interpolate-bound :
    (value low high : ℕ)
    → leb value low ≡ false
    → leb high value ≡ false
    → 1000 - (900 * (value - low) / 1000) * 1000 / (high - low) ≤ 1000
interpolate-bound value low high h k = omega arith

abbrev thousandths : Floats
thousandths = record {
  F = ℕ;
  of_ℕ = λ n. n * 1000;
  le = leb;
  mul = λ a b. a * b / 1000;
  sub = λ a b. a - b;
  div = λ a b. a * 1000 / b;
  to_u32 = λ a. a / 1000;
  ceil_usize = λ a. (a + 999) / 1000;
  four = 4000;
  one = 1000;
  nine_tenths = 900;
  tenth = 100;
  ninety_nine_hundredths = 990;
  IsFraction = λ a. a ≤ 1000;
  one-IsFraction = omega arith;
  tenth-IsFraction = omega arith;
  mul-IsFraction = mul-bound;
  interpolate-IsFraction = interpolate-bound;
  to_u32-mul = to_u32-bound;
}

abbrev origin : Text → ℕ → Bool → OriginConfig
origin id weight backup = record {
  id = id;
  host = codes "h";
  port = 80;
  weight = weight;
  protocol = http;
  backup = backup;
  enabled = true;
  sni = none;
}

abbrev a : OriginConfig
a = origin (codes "a") 2 false

abbrev b : OriginConfig
b = origin (codes "b") 1 false

abbrev c : OriginConfig
c = origin (codes "c") 1 true

abbrev idle : Balancer ℕ
idle = record { rr_counter = 4; active_conns = []; origin_stats = []; rand_state = 1 }

abbrev no_adaptive : AdaptiveWeightConfig ℕ
no_adaptive = record {
  enabled = false;
  window_size = 100;
  latency_threshold_ms = 500000;
  error_threshold = 100;
}

abbrev site : Site ℕ
site = record {
  site_id = codes "s";
  origins = a ∷ b ∷ c ∷ [];
  algorithm = round_robin;
  adaptive_weight = no_adaptive;
}

abbrev dns : Text → ℕ → Option Text
dns host port = some host

-- A round of three selections from counter 4
turns_run : turns (a ∷ b ∷ []) (2 ∷ 1 ∷ []) 3 idle ≡ some a ∷ some b ∷ some a ∷ []
unfolding turns select_round_robin
turns_run = refl

select_round_robin-fair_example :
    turns (a ∷ b ∷ []) (2 ∷ 1 ∷ []) 3 idle
    ≡ map some
        (drop 1 (table (a ∷ b ∷ []) (2 ∷ 1 ∷ [])) ++ take 1 (table (a ∷ b ∷ []) (2 ∷ 1 ∷ [])))
select_round_robin-fair_example =
    select_round_robin-fair (a ∷ b ∷ []) (2 ∷ 1 ∷ []) refl (omega arith) (omega arith) idle
      (omega arith)

select_least_conn-IsFirstBest_example :
    (p : Weighted) × (select_least_conn idle (a ∷ b ∷ []) (2 ∷ 1 ∷ []) (codes "s") ≡ some p.0)
    × IsFirstBest (active_conn_count idle (codes "s")) (pairs (a ∷ b ∷ []) (2 ∷ 1 ∷ [])) p
select_least_conn-IsFirstBest_example =
    select_least_conn-IsFirstBest idle (a ∷ b ∷ []) (2 ∷ 1 ∷ []) (codes "s") (λ e. cc) refl

abbrev conn_call : Text → Change → ConnCall
conn_call id change = record { site_id = codes "s"; origin_id = id; change = change }

abbrev conn_script : List ConnCall
conn_script =
    conn_call (codes "a") opened
    ∷ conn_call (codes "b") closed
    ∷ conn_call (codes "a") opened
    ∷ conn_call (codes "a") closed
    ∷ []

conn_run : active_conn_count (perform_all conn_script idle) (codes "s") (codes "a") ≡ 1
unfolding active_conn_count perform_all conn_inc conn_dec lookup insert
conn_run = refl

record_response-window_example :
    (stats : OriginStats ℕ) × (lookup
        (make_key (codes "s") (codes "a"))
        (record_all (codes "s") (codes "a") 1 ((5, false, 0) ∷ (7, true, 1) ∷ []) idle).origin_stats
      ≡ some stats)
    × (stats.samples ≡ last_n (max 1 1) (map sample_of ((5, false, 0) ∷ (7, true, 1) ∷ [])))
    × (length stats.samples ≤ max 1 1)
unfolding lookup
record_response-window_example =
    record_response-window (codes "s") (codes "a") 1 (5, false, 0) ((7, true, 1) ∷ []) idle refl

abbrev next_idle : Balancer ℕ
next_idle = record idle { rr_counter = 5 }

abbrev peer_b : Peer Text
peer_b = record {
  addr = codes "h";
  tls = false;
  sni = [];
  http2_only = false;
  max_h2_streams = none;
  keeps_read_timeout = true;
}

select_run :
    select_peer thousandths (λ t. 0) dns (new 3 2) idle site none plain 0
    ≡ some (selected peer_b a, next_idle)
unfolding select_peer connect weights select select_round_robin candidates_of make_peer
    effective_weight new is_healthy lookup
select_run = refl

select_peer-IsEligible_example :
    IsEligible (new 3 2) (codes "s") (a ∷ b ∷ c ∷ []) a
    × ((addr : Text) × (dns a.host a.port ≡ some addr) × (peer_b ≡ make_peer addr a plain))
select_peer-IsEligible_example =
    select_peer-IsEligible thousandths (λ t. 0) dns (new 3 2) idle next_idle site none plain 0
      peer_b a select_run
