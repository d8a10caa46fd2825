-- ===== src/Cc/Check.antt =====
-- The engine: cc/mod.rs, `CcEngine::check`. The addresses of the clock are two arguments: `now`, in
-- nanoseconds, is that of the caches, and `wall`, in seconds, that of the tokens. The message to
-- Redis, which another task sends, is part of the result. Logs and metrics are left out.
use nozdormu.Prelude.{
  ℕ, Bool, true, false, Option, none, some, List, [], ◌∷◌, ◌++◌, ltb, leb, if◌then◌else◌,
}
use nozdormu.Prelude.Text.{Text, codes, strip_prefix, split, trim}
use nozdormu.Prelude.Decimal.{format}
use nozdormu.Cc.{
  CcAction, block, challenge, log, delay, CcKeyType, ip_url, CcRule, CcConfig, make_counter_key,
  match_rule, should_sync_redis, make_redis_key,
}
use nozdormu.Cc.State.{TtlCache, State, from_secs, block_ip, is_blocked, increment}
use nozdormu.Cc.Token.{Signing, issue, verify}

pub data CcActionResult : Type 0 where
  allow : CcActionResult
  blocked : ℕ → Text → CcActionResult
  challenged : Text → Text → CcActionResult
  delayed : ℕ → Text → CcActionResult
  logged : Text → CcActionResult

-- The engine's defaults, and whether it has a Redis
pub record CcEngine : Type 0 where
  pub default_rate : ℕ
  pub default_window : ℕ
  pub default_block_duration : ℕ
  pub redis : Bool

pub record Request : Type 0 where
  pub client_ip : Text
  pub uri : Text
  pub path : Text
  pub cookie_header : Option Text
  pub site_id : Text

-- `incr_by_ex(key, 10, expire)`
pub record Sync : Type 0 where
  pub key : Text
  pub delta : ℕ
  pub expire : ℕ

-- What a request is held to: the fields of its rule, or the defaults
pub record Terms : Type 0 where
  pub rate : ℕ
  pub window : ℕ
  pub block_duration : ℕ
  pub action : CcAction
  pub key_type : CcKeyType

abbrev pub or_default : ℕ → ℕ → ℕ
or_default site_value default = if ltb 0 site_value then site_value else default

unfoldable pub terms_of : CcEngine → CcConfig → Option CcRule → Terms
terms_of engine cc (some rule) = record {
  rate = rule.rate;
  window = rule.window;
  block_duration = rule.block_duration;
  action = rule.action;
  key_type = rule.key_type;
}
terms_of engine cc none = record {
  rate = or_default cc.default_rate engine.default_rate;
  window = or_default cc.default_window engine.default_window;
  block_duration = or_default cc.default_block_duration engine.default_block_duration;
  action = cc.default_action;
  key_type = ip_url;
}

-- The loop over the parts of the header
unfoldable pub find_challenge : List Text → Option Text
find_challenge [] = none
find_challenge (part ∷ parts) =
    let rest = find_challenge parts in
    elim (strip_prefix (codes "__cc_challenge=") (trim part)) [
      | some value ↦ some value
      | none ↦ rest
    ]

unfoldable pub extract_challenge_cookie : Option Text → Option Text
unfolding find_challenge split trim
extract_challenge_cookie none = none
extract_challenge_cookie (some header) = find_challenge (split b';' header)

-- `{count}/{rate} in {window}s on {path}`, after a heading
abbrev pub reason : Text → ℕ → Terms → Text → Text
reason heading count terms path =
    heading
    ++ (codes ": "
        ++ (format count
            ++ (b'/' ∷ format terms.rate
                ++ (codes " in " ++ (format terms.window ++ (codes "s on " ++ path))))))

abbrev pub is_challenge : CcAction → Bool
is_challenge challenge = true
is_challenge _ = false

module _ (bans : TtlCache (Unit {0})) (counts : TtlCache ℕ) (signing : Signing)
    (crc32 : Text → ℕ) where
  abbrev pub Outcome : Type 0
  Outcome = CcActionResult × Option Sync × State bans counts

  -- The answer to a request over its rate
  unfoldable pub apply_action :
      ℕ
      → ℕ
      → Request
      → Terms
      → ℕ
      → State bans counts
      → CcAction
      → CcActionResult × State bans counts
  unfolding issue
  apply_action now wall r terms count s block = (
    blocked terms.block_duration (reason (codes "rate limit exceeded") count terms r.path),
    block_ip bans counts now r.site_id r.client_ip (from_secs terms.block_duration) s,
  )
  apply_action now wall r terms count s challenge = (
    challenged (issue signing wall r.client_ip)
        (reason (codes "JS challenge triggered") count terms r.path),
    s,
  )
  apply_action now wall r terms count s delay =
      (delayed 1000 (reason (codes "rate limit delay") count terms r.path), s)
  apply_action now wall r terms count s log =
      (logged (reason (codes "rate limit logged") count terms r.path), s)

  -- The message to Redis, at every tenth request
  unfoldable pub sync : CcEngine → Terms → Text → ℕ → Option Sync
  sync engine terms counter_key count =
      if should_sync_redis count
      then if engine.redis
        then some (record { key = make_redis_key counter_key; delta = 10; expire = terms.window })
        else none
      else none

  -- Steps 4 to 6: count, and compare with the rate
  unfoldable pub count_request : ℕ → ℕ → CcEngine → Request → Terms → State bans counts → Outcome
  unfolding apply_action sync
  count_request now wall engine r terms s =
      let key = make_counter_key crc32 r.site_id r.client_ip r.uri r.path terms.key_type in
      let (count, s') = increment bans counts now key (from_secs terms.window) s in
      let message = sync engine terms key count in
      if leb count terms.rate
      then (allow, message, s')
      else (let (result, s'') = apply_action now wall r terms count s' terms.action in
          (result, message, s''))

  -- Step 3: the challenge cookie of the request is there and verifies.
  unfoldable pub has_passed : ℕ → Request → Terms → Bool
  unfolding verify extract_challenge_cookie
  has_passed wall r terms =
      if is_challenge terms.action
      then elim (extract_challenge_cookie r.cookie_header) [
        | none ↦ false
        | some value ↦ verify signing wall r.client_ip value
      ]
      else false

  unfoldable pub check : ℕ → ℕ → CcEngine → CcConfig → Request → State bans counts → Outcome
  unfolding terms_of match_rule has_passed count_request is_blocked
  check now wall engine cc r s =
      let terms = terms_of engine cc (match_rule r.path cc.rules) in
      if cc.enabled
      then if is_blocked bans counts now r.site_id r.client_ip s
        then (
          blocked engine.default_block_duration
              (codes "IP " ++ (r.client_ip ++ codes " is currently banned")),
          none,
          s,
        )
        else if has_passed wall r terms
        then (allow, none, s)
        else count_request now wall engine r terms s
      else (allow, none, s)
