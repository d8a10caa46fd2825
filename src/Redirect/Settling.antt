-- ===== src/Redirect/Settling.antt =====
-- Followed redirects of a site come to an end (redirect/domain.rs, protocol.rs and mod.rs).
use nozdormu.Prelude.{
  ℕ, zero, suc, ◌⊎◌, ◌≡◌, refl, ◌∙◌, Option, none, some, List, [], ◌∷◌, ◌++◌, ◌==◌, if◌then◌else◌,
  arith, Bool-cases, Option-cases, inl, inr,
}
use nozdormu.Prelude.Text.{Text, codes, text_eq_iff, lower, split, Lacks}
use nozdormu.Prelude.Decimal.{format}
use nozdormu.Redirect.{
  DomainRedirectConfig, ForceHttpsConfig, Redirect, host_no_port, url_of, https_host,
  check_domain_redirect, check_protocol_redirect,
}
use nozdormu.Redirect.Engine.{
  RedirectSource, from_domain, from_protocol, from_url_rule, RedirectResult, of_site, check_domain,
  check_site,
}
use nozdormu.Redirect.Url.{RequestInfo}

-- The text up to a separator
abbrev before : ℕ → Text → Text
before sep [] = []
before sep (c ∷ s) = if c == sep then [] else c ∷ before sep s

split-before : (sep : ℕ) (s : Text) → (ps : List Text) × (split sep s ≡ before sep s ∷ ps)
unfolding split
split-before sep [] = ([], refl)
split-before sep (c ∷ s) =
    let (ps, e) = split-before sep s in
    elim (Bool-cases (c == sep)) [ inl t ↦ (split sep s, rw t refl) | inr f ↦ (ps, rw (f, e) refl) ]

host_no_port-before : (host : Text) → host_no_port host ≡ before b':' host
unfolding host_no_port
host_no_port-before host = let (ps, e) = split-before b':' host in rw e refl

before_of_Lacks : (sep : ℕ) (s : Text) → Lacks sep s → before sep s ≡ s
before_of_Lacks sep [] h = refl
before_of_Lacks sep (c ∷ s) h = ground (arith, before_of_Lacks sep s h.1)

before-before : (sep : ℕ) (s : Text) → before sep (before sep s) ≡ before sep s
before-before sep [] = refl
before-before sep (c ∷ s) = ground (arith, before-before sep s)

before-append : (sep : ℕ) (s rest : Text) → before sep (before sep s ++ (sep ∷ rest)) ≡ before sep s
before-append sep [] rest = ground arith
before-append sep (c ∷ s) rest = ground (arith, before-append sep s rest)

host_no_port-https_host :
    (host : Text) (port : Option ℕ) → host_no_port (https_host host port) ≡ host_no_port host
unfolding https_host
host_no_port-https_host host none =
    rw (host_no_port-before host, host_no_port-before (before b':' host)) (before-before b':' host)
host_no_port-https_host host (some port) = elim (Bool-cases (port == 443)) [
  | inl t ↦
      rw (t, host_no_port-before host, host_no_port-before (before b':' host))
        (before-before b':' host)
  | inr f ↦
      rw
        (
          f,
          host_no_port-before host,
          host_no_port-before (before b':' host ++ (b':' ∷ format port)),
        )
        (before-append b':' host (format port))
]

-- A domain redirect depends on the host up to its port.
check_domain-none :
    (req req' : RequestInfo) (config : Option DomainRedirectConfig)
    → check_domain req config ≡ none
    → host_no_port req'.host ≡ host_no_port req.host
    → check_domain req' config ≡ none
unfolding check_domain check_domain_redirect
check_domain-none req req' none e same = refl
check_domain-none req req' (some config) e same = rw same (ground (arith, e))

-- The target has no port.
abbrev pub LacksPort : Option DomainRedirectConfig → Type 0
LacksPort none = Unit
LacksPort (some config) = Lacks b':' config.target_domain

-- The request that a client makes when it follows the redirect
unfoldable pub followed :
    RequestInfo → Option DomainRedirectConfig → ForceHttpsConfig → RedirectSource → RequestInfo
followed req none force_https from_domain = req
followed req (some config) force_https from_domain = record req { host = config.target_domain }
followed req domain_redirect force_https from_protocol = record req {
  scheme = codes "https";
  host = https_host req.host force_https.https_port;
}
followed req domain_redirect force_https from_url_rule = req

-- After at most so many redirects, each to the URL of the next request, there is none.
unfoldable pub Settles : ℕ → RequestInfo → Option DomainRedirectConfig → ForceHttpsConfig → Type 0
Settles zero req domain_redirect force_https = check_site req domain_redirect force_https ≡ none
Settles (suc n) req domain_redirect force_https =
    (check_site req domain_redirect force_https ≡ none)
    ⊎ ((r : RedirectResult) × (check_site req domain_redirect force_https ≡ some r)
        × (r.target_url
            ≡ url_of (followed req domain_redirect force_https r.source).scheme
                (followed req domain_redirect force_https r.source).host
                (followed req domain_redirect force_https r.source).uri)
        × Settles n (followed req domain_redirect force_https r.source) domain_redirect force_https)

-- What a redirect of the protocol says, and that it is the last
check_protocol_redirect-url :
    (scheme host uri : Text) (config : ForceHttpsConfig) (r : Redirect)
    → check_protocol_redirect scheme host uri config ≡ some r
    → r.target_url ≡ url_of (codes "https") (https_host host config.https_port) uri
unfolding check_protocol_redirect
check_protocol_redirect-url scheme host uri config r e = ground (arith, e)

check_protocol_redirect-https :
    (host uri : Text) (config : ForceHttpsConfig)
    → check_protocol_redirect (codes "https") host uri config ≡ none
unfolding check_protocol_redirect
check_protocol_redirect-https host uri config = elim (Bool-cases config.enable) [
  | inl t ↦ rw t refl
  | inr f ↦ rw f refl
]

-- What a redirect of the domain says, and that the target is not redirected again
check_domain-url :
    (req : RequestInfo) (config : DomainRedirectConfig) (r : Redirect)
    → check_domain req (some config) ≡ some r
    → r.target_url ≡ url_of req.scheme config.target_domain req.uri
unfolding check_domain check_domain_redirect
check_domain-url req config r e = ground (arith, e)

check_domain-target :
    (req : RequestInfo) (config : DomainRedirectConfig)
    → Lacks b':' config.target_domain
    → check_domain (record req { host = config.target_domain }) (some config) ≡ none
unfolding check_domain check_domain_redirect
check_domain-target req config h =
    let same : host_no_port config.target_domain ≡ config.target_domain =
      host_no_port-before config.target_domain ∙ before_of_Lacks b':' config.target_domain h in
    let equal = (text_eq_iff (lower config.target_domain) (lower config.target_domain)).1 refl in
    elim (Bool-cases config.enabled) [ inl t ↦ rw (t, same, equal) refl | inr f ↦ rw f refl ]

check_site-none :
    (req : RequestInfo) (domain_redirect : Option DomainRedirectConfig)
    (force_https : ForceHttpsConfig)
    → check_domain req domain_redirect ≡ none
    → check_protocol_redirect req.scheme req.host req.uri force_https ≡ none
    → check_site req domain_redirect force_https ≡ none
unfolding check_site
check_site-none req domain_redirect force_https d p = rw (d, check_site, p) refl

-- Without a redirect of the domain there is at most one of the protocol.
protocol-Settles :
    (req : RequestInfo) (domain_redirect : Option DomainRedirectConfig)
    (force_https : ForceHttpsConfig)
    → check_domain req domain_redirect ≡ none
    → Settles 1 req domain_redirect force_https
unfolding Settles followed check_site
protocol-Settles req domain_redirect force_https d =
    elim (Option-cases (check_protocol_redirect req.scheme req.host req.uri force_https)) [
      | inl p ↦ inl (check_site-none req domain_redirect force_https d p)
      | inr (r, p) ↦
          let req' : RequestInfo = record req {
            scheme = codes "https";
            host = https_host req.host force_https.https_port;
          } in
          let quiet =
            check_domain-none req req' domain_redirect d
              (host_no_port-https_host req.host force_https.https_port) in
          inr (
            of_site from_protocol r,
            rw (d, check_site, p) refl,
            check_protocol_redirect-url req.scheme req.host req.uri force_https r p,
            check_site-none req' domain_redirect force_https quiet
                (check_protocol_redirect-https req'.host req'.uri force_https),
          )
    ]

more-Settles :
    (req : RequestInfo) (domain_redirect : Option DomainRedirectConfig)
    (force_https : ForceHttpsConfig)
    → Settles 1 req domain_redirect force_https
    → Settles 2 req domain_redirect force_https
unfolding Settles
more-Settles req domain_redirect force_https (inl e) = inl e
more-Settles req domain_redirect force_https (inr (r, e, url, ends)) = inr (r, e, url, inl ends)

-- Where the target domain has no port, a client that follows the redirects of a site is redirected
-- at most twice, whatever the request: to the target domain, and then to HTTPS. Each redirect goes
-- to the URL of the request that the client makes next.
pub check_site-Settles :
    (req : RequestInfo) (domain_redirect : Option DomainRedirectConfig)
    (force_https : ForceHttpsConfig)
    → LacksPort domain_redirect
    → Settles 2 req domain_redirect force_https
unfolding Settles followed check_site
check_site-Settles req none force_https h =
    more-Settles req none force_https (protocol-Settles req none force_https refl)
check_site-Settles req (some config) force_https h =
    elim (Option-cases (check_domain req (some config))) [
      | inl d ↦
          more-Settles req (some config) force_https
            (protocol-Settles req (some config) force_https d)
      | inr (r, d) ↦ inr (
        of_site from_domain r,
        rw (d, check_site) refl,
        check_domain-url req config r d,
        protocol-Settles (record req { host = config.target_domain }) (some config) force_https
            (check_domain-target req config h),
      )
    ]
