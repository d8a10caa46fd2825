-- ===== src/Health/Tests.antt =====
-- Runs of health.rs, and its theorems at inputs that meet their hypotheses.
use nozdormu.Prelude.{◌≡◌, refl, true, false, List, [], ◌∷◌, arith, replicate}
use nozdormu.Prelude.Text.{Text, codes}
use nozdormu.Prelude.Map.{lookup, insert}
use nozdormu.Health.{OriginHealth, default_health, is_healthy, get_detail, new}
use nozdormu.Health.Origin.{Event, success, failure, forced, run, IsSettled, run-IsSettled}
use nozdormu.Health.Store.{Call, perform_all, events_of, get_detail-perform_all}

abbrev down_after_two : OriginHealth
down_after_two = record default_health { healthy = false; consecutive_failures = 3 }

three_failures : (run 3 2 (replicate 3 failure) default_health).healthy ≡ false
unfolding run
three_failures = refl

recovered :
    (run 3 2 (failure ∷ failure ∷ failure ∷ success ∷ success ∷ []) default_health).healthy ≡ true
unfolding run
recovered = refl

abbrev call : Text → Event → Call
call origin event = record { site_id = codes "s"; origin_id = origin; event = event }

abbrev script : List Call
script =
    call (codes "a") failure
    ∷ call (codes "b") success
    ∷ call (codes "a") failure
    ∷ call (codes "a") failure
    ∷ []

script_run :
    (is_healthy (perform_all script (new 3 2)) (codes "s") (codes "a") ≡ false)
    × (is_healthy (perform_all script (new 3 2)) (codes "s") (codes "b") ≡ true)
unfolding is_healthy perform_all new lookup insert
script_run = (refl, refl)

run-IsSettled_example :
    IsSettled 3 2 (run 3 2 (failure ∷ success ∷ forced false ∷ []) default_health)
run-IsSettled_example =
    run-IsSettled 3 2 (omega arith) (omega arith) (failure ∷ success ∷ forced false ∷ [])

get_detail-perform_all_example :
    get_detail (perform_all script (new 3 2)) (codes "s") (codes "b")
    ≡ run 3 2
        (events_of (codes "s") (codes "b") script)
        (get_detail (new 3 2) (codes "s") (codes "b"))
unfolding new
get_detail-perform_all_example = get_detail-perform_all (codes "s") (codes "b") script (new 3 2)
