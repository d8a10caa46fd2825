-- ===== src/Balancer/Answers.antt =====
-- `select_peer` as a whole: it answers whatever the state and the statistics are (balancer.rs).
use nozdormu.Prelude.{◌<◌, List, All}
use nozdormu.Prelude.Text.{Text}
use nozdormu.Health.{u32_mod}
use nozdormu.Balancer.{OriginConfig, Balancer}

-- The weights of the configuration are u32 values.
abbrev pub HasU32Weights : List OriginConfig → Type 0
HasU32Weights = All (λ o. o.weight < u32_mod)
