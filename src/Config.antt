-- ===== src/Config.antt =====
-- The routing of hosts to sites: crates/cdn-config/src/live_config.rs. A `HashMap` of sites is an
-- association list, in the order of its iteration, which the theorems leave open. Unicode's
-- `to_lowercase` is the parameter `to_lowercase`; the log is left out.
pub mod Routing
mod Tests
use nozdormu.Prelude.{
  ℕ, ◌+◌, Bool, true, false, ◌==◌, ◌&&◌, ◌||◌, Option, none, some, List, [], ◌∷◌, ◌++◌,
  if◌then◌else◌, length, any, ◌>>=◌,
}
use nozdormu.Prelude.Text.{
  Text, codes, text_eq, strip_prefix, starts_with, contains_char, split, split_once, rsplit_once,
}
use nozdormu.Prelude.Decimal.{is_digit}
use nozdormu.Prelude.Map.{Map, lookup, insert}

-- `SiteConfig`, as far as the routing reads it
pub record SiteConfig : Type 0 where
  pub enabled : Bool
  pub domains : List Text
  pub target_labels : List Text

pub record LiveConfig : Type 0 where
  pub sites : Map SiteConfig
  pub domain_index : Map Text
  pub wildcard_index : Map Text

unfoldable pub is_wildcard : Text → Bool
is_wildcard domain = starts_with (codes "*.") domain

-- All bytes are digits, and there is one.
abbrev pub is_port : Text → Bool
is_port [] = false
is_port (c ∷ []) = is_digit c
is_port (c ∷ d ∷ s) = is_digit c && is_port (d ∷ s)

abbrev pub first_part : Text → List Text → Text
first_part inner [] = inner
first_part inner (p ∷ ps) = p

abbrev pub without_port : Text → Option (Text × Text) → Text
without_port host none = host
without_port host (some (before, port)) = if is_port port then before else host

-- The enabled site of an index's entry
unfoldable pub enabled_site : Map SiteConfig → Option Text → Option SiteConfig
enabled_site sites entry =
    entry >>= λ site_id. (lookup site_id sites >>= λ site. if site.enabled then some site else none)

unfoldable pub match_wildcard : LiveConfig → Text → Option SiteConfig
unfolding enabled_site split_once
match_wildcard config host = split_once b'.' host >>= λ parts.
    enabled_site config.sites (lookup (codes "*." ++ parts.1) config.wildcard_index)

module _ (to_lowercase : Text → Text) where
  unfoldable pub normalize_host : Text → Text
  unfolding split rsplit_once
  normalize_host host = to_lowercase (elim (strip_prefix (codes "[") host) [
    | some inner ↦ first_part inner (split b']' inner)
    | none ↦ without_port host (rsplit_once b':' host)
  ])

  -- The loop over the domains of an enabled site
  unfoldable pub index_domains : Text → List Text → Map Text × Map Text → Map Text × Map Text
  index_domains site_id [] indexes = indexes
  index_domains site_id (domain ∷ domains) (exact, wildcard) =
      let key = to_lowercase domain in
      index_domains site_id domains (
        if is_wildcard key then exact else insert key site_id exact,
        if is_wildcard key then insert key site_id wildcard else wildcard,
      )

  -- The loop over the sites
  unfoldable pub index_sites : Map SiteConfig → Map Text × Map Text → Map Text × Map Text
  unfolding index_domains
  index_sites [] indexes = indexes
  index_sites ((site_id, site) ∷ sites) indexes =
      index_sites sites
        (if site.enabled then index_domains site_id site.domains indexes else indexes)

  unfoldable pub build_indexes : LiveConfig → LiveConfig
  unfolding index_sites
  build_indexes config =
      let (exact, wildcard) = index_sites config.sites ([], []) in
      record config { domain_index = exact; wildcard_index = wildcard }

  unfoldable pub match_site : LiveConfig → Text → Option SiteConfig
  unfolding normalize_host enabled_site match_wildcard
  match_site config host =
      let name = normalize_host host in
      elim (enabled_site config.sites (lookup name config.domain_index)) [
        | some site ↦ some site
        | none ↦ match_wildcard config name
      ]

pub stats : LiveConfig → ℕ × ℕ
stats config = (length config.sites, length config.domain_index + length config.wildcard_index)

-- `filter_sites_by_labels`; the set of labels is a list.
unfoldable pub filter_sites_by_labels : Map SiteConfig → List Text → Map SiteConfig
filter_sites_by_labels [] labels = []
filter_sites_by_labels ((id, site) ∷ sites) labels =
    let rest = filter_sites_by_labels sites labels in
    if length site.target_labels == 0 || any (λ l. any (λ n. text_eq n l) labels) site.target_labels
    then (id, site) ∷ rest
    else rest
