-- ===== src/Cache/Decisions.antt =====
-- The checks of a request and of a response: strategy.rs, `check_request_cacheability` and
-- `check_response_cacheability`.
use nozdormu.Prelude.{
  ℕ, ◌≤◌, ◌≡◌, ◌≢◌, ◌↔◌, ◌⊎◌, inl, inr, refl, Bool, true, false, ◌&&◌, ◌||◌, not, Option, none,
  some, List, [], ◌∷◌, ltb, ◌==◌, if◌then◌else◌, Option-cases, any, ◌>>=◌, arith,
}
use nozdormu.Prelude.Text.{Text, codes, text_eq, text_eq_iff, contains, lower, trim}
use nozdormu.Cache.{CacheConfig}
use nozdormu.Cache.Regexes.{RegexCache, IsValid}
use nozdormu.Cache.Rules.{match_rule_ttl}
use nozdormu.Cache.Chosen.{Decides, Returns, match_rule_ttl-Decides}

-- `CacheDecision`
pub record CacheDecision : Type 0 where
  pub cacheable : Bool
  pub ttl : ℕ
  pub reason : Text

unfoldable pub skip : Text → CacheDecision
skip reason = record { cacheable = false; ttl = 0; reason = reason }

-- `CacheDecision::cache`
unfoldable pub store_for : ℕ → Text → CacheDecision
store_for ttl reason = record { cacheable = true; ttl = ttl; reason = reason }

-- A `Cache-Control` that has one of some words, in any case
abbrev pub names_any : List Text → Option Text → Bool
names_any words none = false
names_any words (some header) = any (λ w. contains w (lower header)) words

-- The refusal of a request before its rules are looked at, if any
unfoldable pub refuse_request : Text → Option Text → Bool → CacheConfig → Option Text
refuse_request method cache_control has_authorization config =
    if not config.enabled
    then some (codes "cache disabled")
    else if not (text_eq method (codes "GET") || text_eq method (codes "HEAD"))
    then some (codes "method not cacheable")
    else if names_any (codes "no-cache" ∷ codes "no-store" ∷ []) cache_control
    then some (codes "request cache-control")
    else if has_authorization && not config.cache_authorized
    then some (codes "authorization present")
    else none

unfoldable pub by_ttl : ℕ → CacheDecision
unfolding skip store_for
by_ttl ttl = if ttl == 0 then skip (codes "ttl is zero") else store_for ttl (codes "rule match")

module _ {Re : Type 0} (compile : Text → Option Re) (is_match : Re → Text → Bool) where
  unfoldable pub check_request_cacheability :
      Text
      → Text
      → Option Text
      → Bool
      → CacheConfig
      → RegexCache Re
      → Option (CacheDecision × RegexCache Re)
  unfolding refuse_request by_ttl match_rule_ttl skip
  check_request_cacheability method path cache_control has_authorization config cache =
      elim (refuse_request method cache_control has_authorization config) [
        | some reason ↦ some (skip reason, cache)
        | none ↦ match_rule_ttl compile is_match path config.rules config.default_ttl cache >>= λ q.
            some (by_ttl q.0, q.1)
      ]

abbrev pub cacheable_statuses : List ℕ
cacheable_statuses = 200 ∷ 203 ∷ 204 ∷ 206 ∷ 300 ∷ 301 ∷ 302 ∷ 304 ∷ 307 ∷ 308 ∷ 404 ∷ 410 ∷ []

-- `vary.trim() == "*"`
unfoldable pub varies_on_all : Option Text → Bool
unfolding trim
varies_on_all none = false
varies_on_all (some vary) = text_eq (trim vary) (codes "*")

-- The length is known and above the limit.
abbrev pub exceeds : Option ℕ → ℕ → Bool
exceeds none max_size = false
exceeds (some len) max_size = ltb max_size len

unfoldable pub check_response_cacheability :
    ℕ → Option Text → Bool → Option Text → Option ℕ → CacheConfig → CacheDecision
unfolding skip store_for varies_on_all
check_response_cacheability status cache_control has_set_cookie vary content_length config =
    if not (any (λ s. s == status) cacheable_statuses)
    then skip (codes "status not cacheable")
    else if names_any (codes "private" ∷ codes "no-cache" ∷ codes "no-store" ∷ []) cache_control
    then skip (codes "response cache-control")
    else if has_set_cookie && not config.cache_cookies
    then skip (codes "set-cookie present")
    else if varies_on_all vary
    then skip (codes "vary: *")
    else if exceeds content_length config.max_size
    then skip (codes "content too large")
    else store_for 0 (codes "response cacheable")

-- A `Cache-Control` without any of the words
abbrev pub Silent : List Text → Option Text → Type 0
Silent words header = names_any words header ≡ false

abbrev pub AllowsRequest : Text → Option Text → Bool → CacheConfig → Type 0
AllowsRequest method cache_control has_authorization config =
    (config.enabled ≡ true)
    × ((method ≡ codes "GET") ⊎ (method ≡ codes "HEAD"))
    × Silent (codes "no-cache" ∷ codes "no-store" ∷ []) cache_control
    × ((has_authorization ≡ false) ⊎ (config.cache_authorized ≡ true))

refuse_request_iff :
    (method : Text) (cache_control : Option Text) (has_authorization : Bool) (config : CacheConfig)
    → (refuse_request method cache_control has_authorization config ≡ none)
      ↔ AllowsRequest method cache_control has_authorization config
unfolding refuse_request
refuse_request_iff method cache_control has_authorization config =
    ground (arith, text_eq_iff method (codes "GET"), text_eq_iff method (codes "HEAD"))

abbrev pub IsCacheableStatus : ℕ → Type 0
IsCacheableStatus status =
    (status ≡ 200)
    ⊎ (status ≡ 203)
    ⊎ (status ≡ 204)
    ⊎ (status ≡ 206)
    ⊎ (status ≡ 300)
    ⊎ (status ≡ 301)
    ⊎ (status ≡ 302)
    ⊎ (status ≡ 304)
    ⊎ (status ≡ 307)
    ⊎ (status ≡ 308)
    ⊎ (status ≡ 404)
    ⊎ (status ≡ 410)

status_iff :
    (status : ℕ) → (any (λ s. s == status) cacheable_statuses ≡ true) ↔ IsCacheableStatus status
status_iff status = ground arith

-- A response that may be stored: its status, its headers and its length are all in order.
abbrev pub AllowsResponse : ℕ → Option Text → Bool → Option Text → Option ℕ → CacheConfig → Type 0
AllowsResponse status cache_control has_set_cookie vary content_length config =
    IsCacheableStatus status
    × Silent (codes "private" ∷ codes "no-cache" ∷ codes "no-store" ∷ []) cache_control
    × ((has_set_cookie ≡ false) ⊎ (config.cache_cookies ≡ true))
    × ((v : Text) → vary ≡ some v → trim v ≢ codes "*")
    × ((len : ℕ) → content_length ≡ some len → len ≤ config.max_size)

varies_on_all_iff :
    (vary : Option Text)
    → (varies_on_all vary ≡ false) ↔ ((v : Text) → vary ≡ some v → trim v ≢ codes "*")
unfolding varies_on_all
varies_on_all_iff none = (λ e v h. cc, λ h. refl)
varies_on_all_iff (some vary) = (
  λ e v h s. ground (arith, text_eq_iff (trim vary) (codes "*")),
  λ h. let never = h vary refl in ground (arith, text_eq_iff (trim vary) (codes "*")),
)

exceeds_iff :
    (len : Option ℕ) (max_size : ℕ)
    → (exceeds len max_size ≡ false) ↔ ((n : ℕ) → len ≡ some n → n ≤ max_size)
exceeds_iff none max_size = (λ e n h. cc, λ h. refl)
exceeds_iff (some len) max_size =
    (λ e n h. ground arith, λ h. let bound = h len refl in ground arith)

-- A response is stored exactly when it is allowed, and its TTL is then left open (0).
pub check_response_cacheability_iff :
    (status : ℕ) (cache_control : Option Text) (has_set_cookie : Bool) (vary : Option Text)
    (content_length : Option ℕ) (config : CacheConfig)
    → let d =
        check_response_cacheability status cache_control has_set_cookie vary content_length
          config in
      ((d.cacheable ≡ true)
        ↔ AllowsResponse status cache_control has_set_cookie vary content_length config)
      × (d.ttl ≡ 0)
unfolding check_response_cacheability skip store_for
check_response_cacheability_iff status cache_control has_set_cookie vary content_length config =
    ground
      (arith, status_iff status, varies_on_all_iff vary, exceeds_iff content_length config.max_size)

by_ttl_lem : (ttl : ℕ) → (((by_ttl ttl).cacheable ≡ true) ↔ (ttl ≢ 0)) × ((by_ttl ttl).ttl ≡ ttl)
unfolding by_ttl skip store_for
by_ttl_lem ttl = ground arith

module _ {Re : Type 0} (compile : Text → Option Re) (is_match : Re → Text → Bool) where
  -- What a decision must be, where the rules give the path a TTL
  abbrev pub IsDecision : Text → Option Text → Bool → CacheConfig → ℕ → CacheDecision → Type 0
  IsDecision method cache_control has_authorization config ttl d =
      ((d.cacheable ≡ true)
        ↔ (AllowsRequest method cache_control has_authorization config × (ttl ≢ 0)))
      × ((d.cacheable ≡ true) → d.ttl ≡ ttl)
      × ((d.cacheable ≡ false) → d.ttl ≡ 0)

  -- From a valid cache of patterns the check of a request returns. The request is cacheable exactly
  -- when it is allowed and the TTL of its path, by the deciding rule, is not zero; that is then the
  -- TTL of the decision, and otherwise it is zero.
  pub check_request_cacheability-IsDecision :
      (method path : Text) (cache_control : Option Text) (has_authorization : Bool)
      (config : CacheConfig) (cache : RegexCache Re)
      → IsValid compile cache
      → (ttl : ℕ) × Decides compile is_match path config.rules config.default_ttl ttl
        × ((d : CacheDecision) × IsDecision method cache_control has_authorization config ttl d
            × Returns compile is_match path
                (check_request_cacheability compile is_match method path cache_control
                  has_authorization config cache)
                d)
  unfolding check_request_cacheability skip
  check_request_cacheability-IsDecision method path cache_control has_authorization config cache v =
      let (ttl, decides, (cache', e, v')) =
        match_rule_ttl-Decides compile is_match path config.rules config.default_ttl cache v in
      let allows = refuse_request_iff method cache_control has_authorization config in
      elim (Option-cases (refuse_request method cache_control has_authorization config)) [
        | inl fits ↦
            let (positive, same) = by_ttl_lem ttl in
            (
              ttl,
              decides,
              (
                by_ttl ttl,
                ground (arith, allows, fits),
                (cache', rw (fits, check_request_cacheability, e) refl, v'),
              ),
            )
        | inr (reason, refused) ↦ (
          ttl,
          decides,
          (
            skip reason,
            ground (arith, allows, refused),
            (cache, rw (refused, check_request_cacheability) refl, v),
          ),
        )
      ]
