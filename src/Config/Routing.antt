-- ===== src/Config/Routing.antt =====
-- Which site answers for a host (live_config.rs, `build_indexes` and `match_site`).
use nozdormu.Prelude.{
  ◌≡◌, ◌⊎◌, inl, inr, refl, ap, ◌∙◌, subst, Bool, true, false, ◌&&◌, Option, none, some, List, [],
  ◌∷◌, ◌++◌, if◌then◌else◌, any, arith, Bool-cases, Option-cases, All,
}
use nozdormu.Prelude.Text.{Text, codes, text_eq, text_eq_iff, split_once}
use nozdormu.Prelude.Map.{Map, lookup, insert, IsMap, lookup-insert}
use nozdormu.Config.{
  SiteConfig, LiveConfig, is_wildcard, normalize_host, index_domains, index_sites, build_indexes,
  enabled_site, match_wildcard, match_site,
}

module _ (to_lowercase : Text → Text) where
  -- A site names a key among its domains.
  abbrev pub names : Text → List Text → Bool
  names key domains = any (λ d. text_eq (to_lowercase d) key) domains

  abbrev pub claims : Text → SiteConfig → Bool
  claims key site = site.enabled && names key site.domains

  -- The entry of a key after the sites, from the entry before
  last_claim : Text → Map SiteConfig → Option Text → Option Text
  last_claim key [] entry = entry
  last_claim key ((id, site) ∷ sites) entry =
      last_claim key sites (if claims key site then some id else entry)

  lookup-index_domains :
      (key id : Text) (domains : List Text) (exact wildcard : Map Text)
      → let r = index_domains to_lowercase id domains (exact, wildcard) in
        (lookup key r.0 ≡ (
          if is_wildcard key
          then lookup key exact
          else if names key domains
          then some id
          else lookup key exact))
        × (lookup key r.1 ≡ (
            if is_wildcard key
            then if names key domains then some id else lookup key wildcard
            else lookup key wildcard))
  unfolding index_domains
  lookup-index_domains key id [] exact wildcard = ground arith
  lookup-index_domains key id (domain ∷ domains) exact wildcard =
      let k = to_lowercase domain in
      let rest =
        lookup-index_domains key id domains (if is_wildcard k then exact else insert k id exact)
          (if is_wildcard k then insert k id wildcard else wildcard) in
      ground (
        arith,
        rest,
        text_eq_iff k key,
        lookup-insert k key id exact,
        lookup-insert k key id wildcard,
      )

  lookup-index_sites :
      (key : Text) (sites : Map SiteConfig) (indexes : Map Text × Map Text)
      → let r = index_sites to_lowercase sites indexes in
        (lookup key r.0 ≡ (
          if is_wildcard key
          then lookup key indexes.0
          else last_claim key sites (lookup key indexes.0)))
        × (lookup key r.1 ≡ (
            if is_wildcard key
            then last_claim key sites (lookup key indexes.1)
            else lookup key indexes.1))
  unfolding index_sites last_claim
  lookup-index_sites key [] indexes = ground arith
  lookup-index_sites key ((id, site) ∷ sites) (exact, wildcard) =
      let here = lookup-index_domains key id site.domains exact wildcard in
      elim (Bool-cases site.enabled) [
        | inr off ↦ simp off (lookup-index_sites key sites (exact, wildcard))
        | inl on ↦
            let rest =
              lookup-index_sites key sites
                (index_domains to_lowercase id site.domains (exact, wildcard)) in
            simp on (ground (arith, rest, here))
      ]

  -- A listed site, under its id, that claims a key
  abbrev pub Claims : Text → Map SiteConfig → SiteConfig → Type 0
  Claims key sites site = (id : Text) × (lookup id sites ≡ some site) × (claims key site ≡ true)

  abbrev pub Unclaimed : Text → Map SiteConfig → Type 0
  Unclaimed key sites = All (λ p. claims key p.1 ≡ false) sites

  last_claim-cases :
      (key : Text) (sites : Map SiteConfig) (entry : Option Text)
      → IsMap sites
      → ((last_claim key sites entry ≡ entry) × Unclaimed key sites)
        ⊎ ((site : SiteConfig) × (id : Text) × (last_claim key sites entry ≡ some id)
            × (lookup id sites ≡ some site)
            × (claims key site ≡ true))
  unfolding last_claim lookup
  last_claim-cases key [] entry h = inl (refl, tt)
  last_claim-cases key ((id, site) ∷ sites) entry h = elim (Bool-cases (claims key site)) [
    | inl mine ↦ elim (last_claim-cases key sites (some id) h.1) [
      | inl (e, lack) ↦ inr (site, id, rw mine e, rw ((text_eq_iff id id).1 refl) refl, mine)
      | inr (t, j, e, there, c) ↦
          inr (t, j, rw mine e, ground (arith, text_eq_iff id j, there, h.0), c)
    ]
    | inr foreign ↦ elim (last_claim-cases key sites entry h.1) [
      | inl (e, lack) ↦ inl (rw foreign e, (foreign, lack))
      | inr (t, j, e, there, c) ↦
          inr (t, j, rw foreign e, ground (arith, text_eq_iff id j, there, h.0), c)
    ]
  ]

  -- The enabled site of the entry that the sites leave, if any claims the key
  enabled_site-last_claim :
      (key : Text) (sites : Map SiteConfig)
      → IsMap sites
      → ((enabled_site sites (last_claim key sites none) ≡ none) × Unclaimed key sites)
        ⊎ ((site : SiteConfig) × (enabled_site sites (last_claim key sites none) ≡ some site)
            × Claims key sites site)
  unfolding enabled_site
  enabled_site-last_claim key sites h = elim (last_claim-cases key sites none h) [
    | inl (e, lack) ↦ inl (rw e refl, lack)
    | inr (site, id, e, there, c) ↦
        inr (site, rw (e, there, enabled_site) (ground (arith, c)), (id, there, c))
  ]

  indexed :
      (key : Text) (config : LiveConfig)
      → let built = build_indexes to_lowercase config in
        (lookup key built.domain_index
          ≡ (if is_wildcard key then none else last_claim key config.sites none))
        × (lookup key built.wildcard_index
            ≡ (if is_wildcard key then last_claim key config.sites none else none))
  unfolding build_indexes lookup
  indexed key config = lookup-index_sites key config.sites ([], [])

  -- The site that a name gives by itself, if any
  ByName : Text → Map SiteConfig → Option SiteConfig → Type 0
  ByName name sites result =
      ((site : SiteConfig) × (result ≡ some site)
        × (is_wildcard name ≡ false)
        × Claims name sites site)
      ⊎ ((result ≡ none) × ((is_wildcard name ≡ true) ⊎ Unclaimed name sites))

  -- The site that the wildcard of the name's parent gives, if any
  ByParent : Text → Map SiteConfig → Option SiteConfig → Type 0
  ByParent name sites result =
      ((site : SiteConfig) × (result ≡ some site)
        × ((label : Text) × (parent : Text) × (split_once b'.' name ≡ some (label, parent))
            × Claims (codes "*." ++ parent) sites site))
      ⊎ ((result ≡ none)
          × ((label parent : Text)
              → split_once b'.' name ≡ some (label, parent)
              → Unclaimed (codes "*." ++ parent) sites))

  by_name :
      (name : Text) (config : LiveConfig)
      → IsMap config.sites
      → ByName name config.sites
          (enabled_site config.sites (lookup name (build_indexes to_lowercase config).domain_index))
  unfolding ByName enabled_site
  by_name name config h =
      let entry = (indexed name config).0 in
      elim (Bool-cases (is_wildcard name)) [
        | inl star ↦ rw (entry, star) (inr (refl, inl refl))
        | inr plain ↦ elim (enabled_site-last_claim name config.sites h) [
          | inl (e, lack) ↦ rw (entry, plain) (inr (e, inr lack))
          | inr (site, e, c) ↦ rw (entry, plain) (inl (site, e, refl, c))
        ]
      ]

  is_wildcard-parent : (parent : Text) → is_wildcard (codes "*." ++ parent) ≡ true
  unfolding is_wildcard
  is_wildcard-parent parent = refl

  by_parent :
      (name : Text) (config : LiveConfig)
      → IsMap config.sites
      → ByParent name config.sites (match_wildcard (build_indexes to_lowercase config) name)
  unfolding ByParent match_wildcard build_indexes
  by_parent name config h = elim (Option-cases (split_once b'.' name)) [
    | inl whole ↦ rw (whole, match_wildcard) (inr (refl, λ label parent e. cc))
    | inr ((label, parent), parts) ↦
        let key = codes "*." ++ parent in
        let entry = (indexed key config).1 in
        let step : (if is_wildcard key then last_claim key config.sites none else none)
            ≡ last_claim key config.sites none =
          rw (is_wildcard-parent parent) refl in
        let value : match_wildcard (build_indexes to_lowercase config) name
            ≡ enabled_site config.sites (last_claim key config.sites none) =
          rw (match_wildcard, parts) (ap (enabled_site config.sites) (entry ∙ step)) in
        elim (enabled_site-last_claim key config.sites h) [
          | inl (e, lack) ↦ inr (
            value ∙ e,
            λ l p f.
                let same : parent ≡ p = cc in
                subst (λ t. Unclaimed (codes "*." ++ t) config.sites) same lack,
          )
          | inr (site, e, c) ↦ inl (site, value ∙ e, (label, parent, parts, c))
        ]
  ]

  -- How a host is routed: to an enabled site that names it, or else to one that names the wildcard
  -- of its parent domain, or else nowhere.
  abbrev pub IsRouted : Text → Map SiteConfig → Option SiteConfig → Type 0
  IsRouted name sites result =
      ((site : SiteConfig) × (result ≡ some site)
        × (is_wildcard name ≡ false)
        × Claims name sites site)
      ⊎ (((is_wildcard name ≡ true) ⊎ Unclaimed name sites)
          × (((site : SiteConfig) × (result ≡ some site)
                × ((label : Text) × (parent : Text) × (split_once b'.' name ≡ some (label, parent))
                    × Claims (codes "*." ++ parent) sites site))
              ⊎ ((result ≡ none)
                  × ((label parent : Text)
                      → split_once b'.' name ≡ some (label, parent)
                      → Unclaimed (codes "*." ++ parent) sites))))

  -- With the indexes built, in whatever order the sites come: a host goes to an enabled site that
  -- names it, before any wildcard; or else to one that names the wildcard of its parent domain; and
  -- nowhere only if no enabled site names either.
  pub match_site-IsRouted :
      (config : LiveConfig) (host : Text)
      → IsMap config.sites
      → IsRouted
          (normalize_host to_lowercase host)
          config.sites
          (match_site to_lowercase (build_indexes to_lowercase config) host)
  unfolding ByName ByParent match_site build_indexes
  match_site-IsRouted config host h =
      let name = normalize_host to_lowercase host in
      elim (by_name name config h) [
        | inl (site, e, plain, c) ↦ inl (site, rw (match_site, e) refl, plain, c)
        | inr (e, why) ↦ elim (by_parent name config h) [
          | inl (site, f, found) ↦ inr (why, inl (site, rw (match_site, e) f, found))
          | inr (f, lack) ↦ inr (why, inr (rw (match_site, e) f, lack))
        ]
      ]
