-- ===== src/Waf/Sets.antt =====
-- The sets of address blocks hold what was put in (waf/ip.rs).
use nozdormu.Prelude.{
  ◌≡◌, refl, ◌∙◌, Bool, false, ◌||◌, List, [], ◌∷◌, any, is_some, arith, Option-cases, inl, inr,
}
use nozdormu.Waf.{
  PrefixSet, IpAddr, addr_v4, addr_v6, IpNet, net_v4, net_v6, IpCidrSet, insert_all, new, contains,
  longest_match,
}

module _ {Net4 Addr4 Net6 Addr6 : Type 0} (set4 : PrefixSet Net4 Addr4)
    (set6 : PrefixSet Net6 Addr6) where
  -- The block covers the address.
  unfoldable pub covers : IpAddr set4 set6 → IpNet set4 set6 → Bool
  covers (addr_v4 a) (net_v4 n) = set4.covers a n
  covers (addr_v6 a) (net_v6 n) = set6.covers a n
  covers (addr_v4 a) (net_v6 n) = false
  covers (addr_v6 a) (net_v4 n) = false

  contains-insert_all :
      (ip : IpAddr set4 set6) (cidrs : List (IpNet set4 set6)) (s : IpCidrSet set4 set6)
      → contains set4 set6 ip (insert_all set4 set6 cidrs s)
        ≡ (any (covers ip) cidrs || contains set4 set6 ip s)
  unfolding contains insert_all covers
  contains-insert_all ip [] s = refl
  contains-insert_all (addr_v4 a) (net_v4 n ∷ cidrs) s = ground (
    arith,
    contains-insert_all (addr_v4 a) cidrs (record s { v4 = set4.insert n s.v4 }),
    set4.get_lpm-insert a n s.v4,
  )
  contains-insert_all (addr_v6 a) (net_v6 n ∷ cidrs) s = ground (
    arith,
    contains-insert_all (addr_v6 a) cidrs (record s { v6 = set6.insert n s.v6 }),
    set6.get_lpm-insert a n s.v6,
  )
  contains-insert_all (addr_v4 a) (net_v6 n ∷ cidrs) s =
      contains-insert_all (addr_v4 a) cidrs (record s { v6 = set6.insert n s.v6 })
  contains-insert_all (addr_v6 a) (net_v4 n ∷ cidrs) s =
      contains-insert_all (addr_v6 a) cidrs (record s { v4 = set4.insert n s.v4 })

  contains-empty :
      (ip : IpAddr set4 set6)
      → contains set4 set6 ip (record { v4 = set4.empty; v6 = set6.empty }) ≡ false
  unfolding contains
  contains-empty (addr_v4 a) = rw (set4.get_lpm-empty a) refl
  contains-empty (addr_v6 a) = rw (set6.get_lpm-empty a) refl

  pub contains-new :
      (ip : IpAddr set4 set6) (cidrs : List (IpNet set4 set6))
      → contains set4 set6 ip (new set4 set6 cidrs) ≡ any (covers ip) cidrs
  unfolding new
  contains-new ip cidrs =
      let start : IpCidrSet set4 set6 = record { v4 = set4.empty; v6 = set6.empty } in
      contains-insert_all ip cidrs start ∙ rw (contains-empty ip) (ground arith)

  pub longest_match-contains :
      (ip : IpAddr set4 set6) (s : IpCidrSet set4 set6)
      → is_some (longest_match set4 set6 ip s) ≡ contains set4 set6 ip s
  unfolding longest_match contains
  longest_match-contains (addr_v4 a) s = elim (Option-cases (set4.get_lpm a s.v4)) [
    | inl e ↦ rw (e, longest_match) refl
    | inr (n, e) ↦ rw (e, longest_match) refl
  ]
  longest_match-contains (addr_v6 a) s = elim (Option-cases (set6.get_lpm a s.v6)) [
    | inl e ↦ rw (e, longest_match) refl
    | inr (n, e) ↦ rw (e, longest_match) refl
  ]
