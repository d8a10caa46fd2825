-- ===== src/Config/Tests.antt =====
-- Runs of the routing, and its theorem at an input that meets its hypotheses.
use nozdormu.Prelude.{◌≡◌, refl, true, none, some, [], ◌∷◌}
use nozdormu.Prelude.Text.{codes, lower}
use nozdormu.Prelude.Map.{lookup, insert, IsMap}
use nozdormu.Config.{
  SiteConfig, LiveConfig, normalize_host, is_wildcard, build_indexes, match_site,
  filter_sites_by_labels,
}
use nozdormu.Config.Routing.{IsRouted, match_site-IsRouted}

abbrev plain_site : SiteConfig
plain_site = record {
  enabled = true;
  domains = codes "A.com" ∷ [];
  target_labels = codes "eu" ∷ [];
}

abbrev wild_site : SiteConfig
wild_site = record { enabled = true; domains = codes "*.a.com" ∷ []; target_labels = [] }

abbrev config : LiveConfig
config = record {
  sites = (codes "1", plain_site) ∷ (codes "2", wild_site) ∷ [];
  domain_index = [];
  wildcard_index = [];
}

hosts :
    (normalize_host lower (codes "[::1]:8080") ≡ codes "::1")
    × (normalize_host lower (codes "A.com:443") ≡ codes "a.com")
unfolding normalize_host
hosts = (refl, refl)

routes :
    (match_site lower (build_indexes lower config) (codes "a.com:80") ≡ some plain_site)
    × (match_site lower (build_indexes lower config) (codes "x.a.com") ≡ some wild_site)
    × (match_site lower (build_indexes lower config) (codes "x.y.a.com") ≡ none)
unfolding match_site build_indexes is_wildcard lookup insert
routes = (refl, refl, refl)

labels : filter_sites_by_labels config.sites [] ≡ (codes "2", wild_site) ∷ []
unfolding filter_sites_by_labels
labels = refl

sites-IsMap : IsMap config.sites
unfolding lookup
sites-IsMap = (refl, (refl, tt))

match_site-IsRouted_example :
    IsRouted lower
      (normalize_host lower (codes "x.a.com"))
      config.sites
      (match_site lower (build_indexes lower config) (codes "x.a.com"))
match_site-IsRouted_example = match_site-IsRouted lower config (codes "x.a.com") sites-IsMap
