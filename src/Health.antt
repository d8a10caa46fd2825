-- ===== src/Health.antt =====
-- The health of origins: crates/cdn-proxy/src/health.rs. A u32 counter wraps, as `+= 1` does in a
-- release build. `SystemTime::now()` is the argument `now`.
pub mod Key
pub mod Origin
pub mod Store
mod Tests
use nozdormu.Prelude.{
  ℕ, ◌+◌, ◌%◌, ◌^◌, Bool, true, false, ◌&&◌, not, Option, none, some, [], ◌∷◌, ◌++◌, leb,
  if◌then◌else◌, unwrap_or,
}
use nozdormu.Prelude.Text.{Text}
use nozdormu.Prelude.Map.{Map, lookup, insert, remove}

abbrev pub u32_mod : ℕ
u32_mod = 2 ^ 32

-- `OriginHealth`, and `HealthDetail`, which has the same fields
pub record OriginHealth : Type 0 where
  pub healthy : Bool
  pub consecutive_failures : ℕ
  pub consecutive_successes : ℕ
  pub last_active_check : Option ℕ
  pub last_active_success : Option Bool

abbrev pub default_health : OriginHealth
default_health = record {
  healthy = true;
  consecutive_failures = 0;
  consecutive_successes = 0;
  last_active_check = none;
  last_active_success = none;
}

pub record HealthChecker : Type 0 where
  pub state : Map OriginHealth
  pub unhealthy_threshold : ℕ
  pub healthy_threshold : ℕ

unfoldable pub make_key : Text → Text → Text
make_key site_id origin_id = site_id ++ (0 ∷ origin_id)

-- What `record_success` does to the entry, by the threshold.
pub succeed : ℕ → OriginHealth → OriginHealth
succeed threshold h =
    let successes = (h.consecutive_successes + 1) % u32_mod in
    let counted = record h { consecutive_failures = 0; consecutive_successes = successes } in
    if leb threshold successes && not h.healthy then record counted { healthy = true } else counted

-- What `record_failure` does to it.
pub fail : ℕ → OriginHealth → OriginHealth
fail threshold h =
    let failures = (h.consecutive_failures + 1) % u32_mod in
    let counted = record h { consecutive_successes = 0; consecutive_failures = failures } in
    if leb threshold failures then record counted { healthy = false } else counted

pub force : Bool → OriginHealth → OriginHealth
force healthy h = record h {
  healthy = healthy;
  consecutive_failures = 0;
  consecutive_successes = 0;
}

pub probe : ℕ → Bool → OriginHealth → OriginHealth
probe now success h = record h { last_active_check = some now; last_active_success = some success }

-- `entry(key).or_default()`, and a change of what it holds
unfoldable pub update : (OriginHealth → OriginHealth) → Text → HealthChecker → HealthChecker
update change key c = record c {
  state = insert key (change (unwrap_or (lookup key c.state) default_health)) c.state;
}

unfoldable pub new : ℕ → ℕ → HealthChecker
new unhealthy_threshold healthy_threshold = record {
  state = [];
  unhealthy_threshold = unhealthy_threshold;
  healthy_threshold = healthy_threshold;
}

unfoldable pub get_detail : HealthChecker → Text → Text → OriginHealth
unfolding make_key
get_detail c site_id origin_id =
    unwrap_or (lookup (make_key site_id origin_id) c.state) default_health

unfoldable pub is_healthy : HealthChecker → Text → Text → Bool
unfolding make_key
is_healthy c site_id origin_id = elim (lookup (make_key site_id origin_id) c.state) [
  | none ↦ true
  | some h ↦ h.healthy
]

unfoldable pub record_success : Text → Text → HealthChecker → HealthChecker
unfolding update make_key succeed
record_success site_id origin_id c =
    update (succeed c.healthy_threshold) (make_key site_id origin_id) c

unfoldable pub record_failure : Text → Text → HealthChecker → HealthChecker
unfolding update make_key fail
record_failure site_id origin_id c =
    update (fail c.unhealthy_threshold) (make_key site_id origin_id) c

unfoldable pub set_status : Text → Text → Bool → HealthChecker → HealthChecker
unfolding update make_key force
set_status site_id origin_id healthy c = update (force healthy) (make_key site_id origin_id) c

unfoldable pub record_active_check : Text → Text → Bool → ℕ → HealthChecker → HealthChecker
unfolding update make_key probe
record_active_check site_id origin_id success now c =
    update (probe now success) (make_key site_id origin_id) c

unfoldable pub remove_origin : Text → Text → HealthChecker → HealthChecker
unfolding make_key
remove_origin site_id origin_id c = record c { state = remove (make_key site_id origin_id) c.state }
