-- ===== src/Balancer/Eligible.antt =====
-- The origin that `select_peer` answers is one that may be used (balancer.rs).
use mathlib.Core.List.{Memᴰ}
use nozdormu.Prelude.{
  ℕ, ◌≡◌, ◌⊎◌, refl, Bool, true, false, ◌&&◌, not, Option, some, List, [], ◌∷◌, if◌then◌else◌,
  length, arith, Bool-cases, Option-cases, >>=-eq-some, ◌==◌, inl, inr,
}
use nozdormu.Prelude.Text.{Text}
use nozdormu.Prelude.Member.{mem-filter}
use nozdormu.Health.{HealthChecker, is_healthy}
use nozdormu.Balancer.{OriginConfig, Balancer}
use nozdormu.Balancer.Weight.{Floats}
use nozdormu.Balancer.Candidates.{mem-select}
use nozdormu.Balancer.Peer.{
  Site, ProtocolType, Peer, selected, connect_proxy_failure, usable, candidates_of, select, weights,
  connect, answer, select_peer, make_peer,
}

-- An origin of the site that is enabled and healthy, and a backup only where no primary is.
pub record IsEligible (health : HealthChecker) (site_id : Text) (origins : List OriginConfig)
    (o : OriginConfig) : Type 0 where
  pub listed : Memᴰ o origins
  pub enabled : o.enabled ≡ true
  pub healthy : is_healthy health site_id o.id ≡ true
  pub primary_first :
      (o.backup ≡ false) ⊎ ((o.backup ≡ true) × (usable health site_id false origins ≡ []))

nil_of_length : (xs : List OriginConfig) → length xs ≡ 0 → xs ≡ []
nil_of_length [] h = refl
nil_of_length (x ∷ xs) h = absurd (omega arith)

module _ (health : HealthChecker) (site_id : Text) (origins : List OriginConfig)
    (o : OriginConfig) where
  usable_facts :
      (backup : Bool)
      → Memᴰ o (usable health site_id backup origins)
      → Memᴰ o origins
        × (o.enabled ≡ true)
        × (o.backup ≡ backup)
        × (is_healthy health site_id o.id ≡ true)
  unfolding usable
  usable_facts backup m =
      let (chosen, healthy) = mem-filter (λ x. is_healthy health site_id x.id) _ o m in
      let (listed, asked) =
        mem-filter (λ x. x.enabled && (if backup then x.backup else not x.backup)) origins o
          chosen in
      (listed, ground arith, ground arith, healthy)

  candidates-IsEligible :
      Memᴰ o (candidates_of health site_id origins) → IsEligible health site_id origins o
  unfolding candidates_of
  candidates-IsEligible m = elim (Bool-cases (length (usable health site_id false origins) == 0)) [
    | inl empty ↦
        let (listed, enabled, backup, healthy) =
          usable_facts true (rw (empty, candidates_of) at m) in
        record {
          listed = listed;
          enabled = enabled;
          healthy = healthy;
          primary_first = inr (backup, nil_of_length _ (ground arith));
        }
    | inr some_primary ↦
        let (listed, enabled, backup, healthy) =
          usable_facts false (rw (some_primary, candidates_of) at m) in
        record { listed = listed; enabled = enabled; healthy = healthy; primary_first = inl backup }
  ]

module _ (fl : Floats) (sip_hash : Text → ℕ) {Addr : Type 0}
    (resolve : Text → ℕ → Option Addr) where
  open fl use {F}

  connect-selected :
      (origin o : OriginConfig) (protocol : ProtocolType) (peer : Peer Addr)
      → connect fl sip_hash resolve origin protocol ≡ selected peer o
      → (origin ≡ o)
        × ((addr : Addr) × (resolve o.host o.port ≡ some addr) × (peer ≡ make_peer addr o protocol))
  unfolding connect
  connect-selected origin o protocol peer e =
      elim (Option-cases (resolve origin.host origin.port)) [
        | inl unknown ↦
            let failed : connect_proxy_failure ≡ selected peer o = rw (unknown, connect) at e in cc
        | inr (addr, found) ↦
            let made : selected (make_peer addr origin protocol) origin ≡ selected peer o =
              rw (found, connect) at e in
            let same : origin ≡ o = cc in (same, (addr, rw (← same) found, rw (← same) (cc)))
      ]

  -- The origin that is answered is eligible, and the peer is made for its resolved address.
  pub select_peer-IsEligible :
      (health : HealthChecker) (b b' : Balancer F) (site : Site F) (ip : Option Text)
      (protocol : ProtocolType) (now : ℕ) (peer : Peer Addr) (o : OriginConfig)
      → select_peer fl sip_hash resolve health b site ip protocol now ≡ some (selected peer o, b')
      → IsEligible health site.site_id site.origins o
        × ((addr : Addr) × (resolve o.host o.port ≡ some addr) × (peer ≡ make_peer addr o protocol))
  unfolding select_peer
  select_peer-IsEligible health b b' site ip protocol now peer o e =
      let os = candidates_of health site.site_id site.origins in
      elim (Bool-cases (length os == 0)) [
        | inl empty ↦
            let failed : some (connect_proxy_failure, b) ≡ some (selected peer o, b') =
              rw (empty, select_peer) at e in
            cc
        | inr many ↦
            let (ws, weighed, rest) =
              >>=-eq-some (weights fl sip_hash b site.site_id os site.adaptive_weight now)
                (answer fl sip_hash resolve b site ip protocol os) (rw (many, select_peer) at e) in
            let (origin, chosen, answer) =
              >>=-eq-some (select fl sip_hash site.algorithm b os ws ip site.site_id).0
                (λ x. some (
                  connect fl sip_hash resolve x protocol,
                  (select fl sip_hash site.algorithm b os ws ip site.site_id).1,
                ))
                rest in
            let (same, peer_made) = connect-selected origin o protocol peer (cc) in
            (
              candidates-IsEligible health site.site_id site.origins o (
                  rw same at
                    (mem-select fl sip_hash site.algorithm b os ws ip site.site_id origin chosen)),
              peer_made,
            )
      ]
