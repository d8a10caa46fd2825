-- ===== src/Balancer/Bounds.antt =====
-- Effective weights are total and bounded (balancer.rs, `effective_weight`).
use nozdormu.Prelude.Text.{Text}
use nozdormu.Balancer.{Balancer}
