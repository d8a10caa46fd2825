-- ===== src/Waf/Chain.antt =====
-- Which requests the firewall lets through (waf/ip.rs and mod.rs).
use nozdormu.Prelude.{◌≡◌, Bool, true, false, ◌&&◌, ◌||◌, not, any}
use nozdormu.Prelude.Text.{Text}
use nozdormu.Waf.{PrefixSet, WafMode, WafResult, allow, GeoInfo, make_result, IpAddr, WafConfig}
use nozdormu.Waf.Sets.{covers}
use nozdormu.Waf.Places.{is_admitted}

-- Allowed, or an objection in the way of the mode
abbrev pub Verdict : Bool → WafMode → WafResult → Type 0
Verdict true mode result = result ≡ allow
Verdict false mode result = (objection : Text × Text) × (result ≡ make_result mode objection)

module _ {Net4 Addr4 Net6 Addr6 : Type 0} (set4 : PrefixSet Net4 Addr4)
    (set6 : PrefixSet Net6 Addr6) where
  -- The firewall is off, or the address is on the white list, or it is on no black list of addresses
  -- and its place is admitted.
  unfoldable pub is_allowed :
      {F : Type 0} → (Text → Text) → WafConfig set4 set6 → GeoInfo F → IpAddr set4 set6 → Bool
  is_allowed to_uppercase waf geo ip =
      not waf.enabled
      || (any (covers set4 set6 ip) waf.rules.ip_whitelist
          || (not (any (covers set4 set6 ip) waf.rules.ip_blacklist)
              && is_admitted set4 set6 to_uppercase waf.rules geo))
