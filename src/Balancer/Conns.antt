-- ===== src/Balancer/Conns.antt =====
-- The connection counts of the origins: balancer.rs, `conn_inc`, `conn_dec`, `active_conn_count`.
use nozdormu.Prelude.{ℕ, ◌+◌, ◌-◌, ◌%◌, List, [], ◌∷◌, if◌then◌else◌}
use nozdormu.Prelude.Text.{Text, text_eq}
use nozdormu.Prelude.Map.{Map}
use nozdormu.Health.{make_key, u32_mod}
use nozdormu.Balancer.{Balancer, conn_inc, conn_dec}

pub data Change : Type 0 where
  opened closed : Change

pub record ConnCall : Type 0 where
  pub site_id : Text
  pub origin_id : Text
  pub change : Change

-- What the calls on one origin make of its count: it never goes below zero.
pub step_count : Change → ℕ → ℕ
step_count opened n = (n + 1) % u32_mod
step_count closed n = n - 1

pub counts : Text → Text → List ConnCall → ℕ → ℕ
counts site_id origin_id [] n = n
counts site_id origin_id (c ∷ cs) n = counts site_id origin_id cs (
    if text_eq (make_key c.site_id c.origin_id) (make_key site_id origin_id)
    then step_count c.change n
    else n)

module _ {L : Type 0} where
  unfoldable pub perform : Change → Text → Text → Balancer L → Balancer L
  perform opened site_id origin_id b = conn_inc site_id origin_id b
  perform closed site_id origin_id b = conn_dec site_id origin_id b

  unfoldable pub perform_all : List ConnCall → Balancer L → Balancer L
  unfolding perform
  perform_all [] b = b
  perform_all (c ∷ cs) b = perform_all cs (perform c.change c.site_id c.origin_id b)
