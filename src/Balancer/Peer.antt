-- ===== src/Balancer/Peer.antt =====
-- `select_peer` (balancer.rs): the candidates, their weights, the algorithm, and the peer. DNS is the
-- parameter `resolve`, the address that `resolve_to_socket` gives for a host and a port.
use nozdormu.Prelude.{
  ℕ, Bool, true, false, ◌&&◌, not, Option, none, some, List, [], ◌∷◌, if◌then◌else◌, length, ◌>>=◌,
  filter, unwrap_or, ◌==◌,
}
use nozdormu.Prelude.Text.{Text, codes}
use nozdormu.Health.{HealthChecker, is_healthy}
use nozdormu.Balancer.{
  OriginConfig, OriginProtocol, http, https, LbAlgorithm, round_robin, ip_hash, random, least_conn,
  Balancer,
}
use nozdormu.Balancer.Select.{select_round_robin, select_weighted_random, select_least_conn}
use nozdormu.Balancer.Ring.{select_ip_hash}
use nozdormu.Balancer.Weight.{Floats, AdaptiveWeightConfig, effective_weight}

-- `SiteConfig`, as far as the balancer reads it
pub record Site (F : Type 0) : Type 0 where
  pub site_id : Text
  pub origins : List OriginConfig
  pub algorithm : LbAlgorithm
  pub adaptive_weight : AdaptiveWeightConfig F

-- `ProtocolType`; the variant of gRPC makes no difference here
pub data ProtocolType : Type 0 where
  plain websocket sse grpc : ProtocolType

-- The options that `select_peer` sets on the `HttpPeer`, beside the address. `read_timeout` is
-- `false` where it is cleared.
pub record Peer (Addr : Type 0) : Type 0 where
  pub addr : Addr
  pub tls : Bool
  pub sni : Text
  pub http2_only : Bool
  pub max_h2_streams : Option ℕ
  pub keeps_read_timeout : Bool

pub data Selection (Addr : Type 0) : Type 0 where
  selected : Peer Addr → OriginConfig → Selection Addr
  connect_proxy_failure : Selection Addr

module _ (health : HealthChecker) (site_id : Text) where
  -- `filter(enabled, backup as asked)`, then `filter(is_healthy)`
  unfoldable pub usable : Bool → List OriginConfig → List OriginConfig
  usable backup origins =
      filter (λ o. is_healthy health site_id o.id)
        (filter (λ o. o.enabled && (if backup then o.backup else not o.backup)) origins)

  -- The healthy primaries, or else the healthy backups
  unfoldable pub candidates_of : List OriginConfig → List OriginConfig
  unfolding usable
  candidates_of origins =
      if length (usable false origins) == 0 then usable true origins else usable false origins

is_https : OriginProtocol → Bool
is_https http = false
is_https https = true

unfoldable pub make_peer : {Addr : Type 0} → Addr → OriginConfig → ProtocolType → Peer Addr
unfolding is_https
make_peer {Addr} addr origin protocol =
    let tls = is_https origin.protocol in
    let peer : Peer Addr = record {
      addr = addr;
      tls = tls;
      sni = if tls then unwrap_or origin.sni origin.host else [];
      http2_only = false;
      max_h2_streams = none;
      keeps_read_timeout = true;
    } in
    elim protocol [
      | plain ↦ peer
      | websocket ↦ record peer { keeps_read_timeout = false }
      | sse ↦ record peer { keeps_read_timeout = false }
      | grpc ↦ record peer { http2_only = true; max_h2_streams = some 10 }
    ]

module _ (fl : Floats) (sip_hash : Text → ℕ) where
  open fl use {F}

  -- `none` is a panic in a weight.
  unfoldable pub weights :
      Balancer F → Text → List OriginConfig → AdaptiveWeightConfig F → ℕ → Option (List ℕ)
  weights b site_id [] config now = some []
  weights b site_id (o ∷ os) config now = do
    w ← effective_weight fl b site_id o config now
    ws ← weights b site_id os config now
    some (w ∷ ws)

  unfoldable pub select :
      LbAlgorithm
      → Balancer F
      → List OriginConfig
      → List ℕ
      → Option Text
      → Text
      → Option OriginConfig × Balancer F
  select round_robin b candidates ws client_ip site_id = select_round_robin b candidates ws
  select ip_hash b candidates ws client_ip site_id =
      (select_ip_hash sip_hash candidates ws (unwrap_or client_ip (codes "0.0.0.0")), b)
  select random b candidates ws client_ip site_id = select_weighted_random b candidates ws
  select least_conn b candidates ws client_ip site_id =
      (select_least_conn b candidates ws site_id, b)

  module _ {Addr : Type 0} (resolve : Text → ℕ → Option Addr) where
    -- DNS and the peer for the origin that was selected
    unfoldable pub connect : OriginConfig → ProtocolType → Selection Addr
    unfolding make_peer
    connect origin protocol = elim (resolve origin.host origin.port) [
      | none ↦ connect_proxy_failure
      | some addr ↦ selected (make_peer addr origin protocol) origin
    ]

    -- The selection among the candidates, by their weights, and what follows it
    unfoldable pub answer :
        Balancer F
        → Site F
        → Option Text
        → ProtocolType
        → List OriginConfig
        → List ℕ
        → Option (Selection Addr × Balancer F)
    answer b site client_ip protocol candidates ws =
        let (chosen, b') = select site.algorithm b candidates ws client_ip site.site_id in
        chosen >>= λ origin. some (connect origin protocol, b')

    -- The answer, and the balancer after it; `none` is a panic.
    unfoldable pub select_peer :
        HealthChecker
        → Balancer F
        → Site F
        → Option Text
        → ProtocolType
        → ℕ
        → Option (Selection Addr × Balancer F)
    unfolding answer
    select_peer health b site client_ip protocol now =
        let candidates = candidates_of health site.site_id site.origins in
        if length candidates == 0
        then some (connect_proxy_failure, b)
        else (weights b site.site_id candidates site.adaptive_weight now
            >>= answer b site client_ip protocol candidates)
