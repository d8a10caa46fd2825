-- ===== src/Health/Store.antt =====
-- The health map against the automata of its origins: no call disturbs another origin (health.rs).
use nozdormu.Prelude.{
  ◌≡◌, refl, List, [], ◌∷◌, if◌then◌else◌, arith, unwrap_or, Bool-cases, inl, inr,
}
use nozdormu.Prelude.Text.{Text, text_eq, text_eq_iff}
use nozdormu.Prelude.Map.{lookup, remove, lookup-insert, lookup-remove}
use nozdormu.Health.{
  OriginHealth, HealthChecker, default_health, make_key, update, succeed, fail, force, probe,
  get_detail, is_healthy, record_success, record_failure, set_status, record_active_check,
  remove_origin,
}
use nozdormu.Health.Origin.{Event, success, failure, forget, forced, probed, step, run}

pub record Call : Type 0 where
  pub site_id : Text
  pub origin_id : Text
  pub event : Event

-- The method of `HealthChecker` that an event stands for.
unfoldable pub perform : Text → Text → Event → HealthChecker → HealthChecker
unfolding record_success record_failure set_status record_active_check remove_origin
perform site_id origin_id success c = record_success site_id origin_id c
perform site_id origin_id failure c = record_failure site_id origin_id c
perform site_id origin_id forget c = remove_origin site_id origin_id c
perform site_id origin_id (forced healthy) c = set_status site_id origin_id healthy c
perform site_id origin_id (probed now result) c = record_active_check site_id origin_id result now c

unfoldable pub perform_all : List Call → HealthChecker → HealthChecker
unfolding perform
perform_all [] c = c
perform_all (call ∷ calls) c = perform_all calls (perform call.site_id call.origin_id call.event c)

-- The events of the calls on one origin, in order.
pub events_of : Text → Text → List Call → List Event
events_of site_id origin_id [] = []
events_of site_id origin_id (call ∷ calls) =
    if text_eq (make_key call.site_id call.origin_id) (make_key site_id origin_id)
    then call.event ∷ events_of site_id origin_id calls
    else events_of site_id origin_id calls

perform-thresholds :
    (s o : Text) (e : Event) (c : HealthChecker)
    → ((perform s o e c).unhealthy_threshold ≡ c.unhealthy_threshold)
      × ((perform s o e c).healthy_threshold ≡ c.healthy_threshold)
unfolding perform record_success record_failure set_status record_active_check remove_origin
perform-thresholds s o success c = (refl, refl)
perform-thresholds s o failure c = (refl, refl)
perform-thresholds s o forget c = (refl, refl)
perform-thresholds s o (forced healthy) c = (refl, refl)
perform-thresholds s o (probed now result) c = (refl, refl)

module _ (s o : Text) where
  get_detail-update :
      (change : OriginHealth → OriginHealth) (key : Text) (c : HealthChecker)
      → get_detail (update change key c) s o
        ≡ (if text_eq key (make_key s o) then change (get_detail c s o) else get_detail c s o)
  unfolding get_detail update
  get_detail-update change key c = elim (Bool-cases (text_eq key (make_key s o))) [
    | inl same ↦
        let here : key ≡ make_key s o = (text_eq_iff key (make_key s o)).0 same in
        rw (lookup-insert, same) (rw here)
    | inr other ↦ rw (lookup-insert, other)
  ]

  get_detail-remove :
      (key : Text) (c : HealthChecker)
      → unwrap_or (lookup (make_key s o) (remove key c.state)) default_health
        ≡ (if text_eq key (make_key s o) then default_health else get_detail c s o)
  unfolding get_detail
  get_detail-remove key c = elim (Bool-cases (text_eq key (make_key s o))) [
    | inl same ↦ rw (lookup-remove, same)
    | inr other ↦ rw (lookup-remove, other)
  ]

  -- One call moves the automaton of its own origin, by one step, and no other.
  get_detail-perform :
      (s' o' : Text) (e : Event) (c : HealthChecker)
      → get_detail (perform s' o' e c) s o ≡ (
          if text_eq (make_key s' o') (make_key s o)
          then step c.unhealthy_threshold c.healthy_threshold e (get_detail c s o)
          else get_detail c s o)
  unfolding perform step record_success record_failure set_status record_active_check remove_origin
  get_detail-perform s' o' success c =
      get_detail-update (succeed c.healthy_threshold) (make_key s' o') c
  get_detail-perform s' o' failure c =
      get_detail-update (fail c.unhealthy_threshold) (make_key s' o') c
  get_detail-perform s' o' forget c = unfold get_detail in get_detail-remove (make_key s' o') c
  get_detail-perform s' o' (forced healthy) c = get_detail-update (force healthy) (make_key s' o') c
  get_detail-perform s' o' (probed now result) c =
      get_detail-update (probe now result) (make_key s' o') c

  -- After any sequence of calls on any origins, the entry of an origin is what its own events, in
  -- their order, make of the entry that it had: calls on other origins leave no trace in it.
  pub get_detail-perform_all :
      (calls : List Call) (c : HealthChecker)
      → get_detail (perform_all calls c) s o
        ≡ run c.unhealthy_threshold c.healthy_threshold (events_of s o calls) (get_detail c s o)
  unfolding perform_all events_of run
  get_detail-perform_all [] c = refl
  get_detail-perform_all (call ∷ calls) c =
      let ih = get_detail-perform_all calls (perform call.site_id call.origin_id call.event c) in
      let same_thresholds = perform-thresholds call.site_id call.origin_id call.event c in
      let moved = get_detail-perform call.site_id call.origin_id call.event c in
      elim (Bool-cases (text_eq (make_key call.site_id call.origin_id) (make_key s o))) [
        | inl own ↦ rw ih (simp (same_thresholds.0, same_thresholds.1, moved, own))
        | inr foreign ↦ rw ih (simp (same_thresholds.0, same_thresholds.1, moved, foreign))
      ]

-- An origin is reported healthy exactly when its automaton is, and an origin that no call has named is.
pub is_healthy-get_detail :
    (c : HealthChecker) (s o : Text) → is_healthy c s o ≡ (get_detail c s o).healthy
unfolding is_healthy get_detail
is_healthy-get_detail c s o = ground arith
