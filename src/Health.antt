-- ===== src/Health.antt =====
-- src/services/health.rs and src/api/health.rs. The text of a reason stands for the `format!` that
-- builds it: a constructor with the values that it prints.
use balances_watcher.Base.{
  ℕ, ◌≡◌, ◌↔◌, Bool, true, false, ◌&&◌, Option, none, some, arith, if◌then◌else◌,
}

pub data Reason : Type 0 where
  dispatcher_not_active : Reason
  block_lag : ℕ → ℕ → ℕ → ℕ → Reason
  heads_disconnected : ℕ → Reason

pub data SubsystemHealth : Type 0 where
  healthy : SubsystemHealth
  unhealthy : Reason → SubsystemHealth

unfoldable pub is_healthy : SubsystemHealth → Bool
is_healthy healthy = true
is_healthy (unhealthy r) = false

unfoldable pub reason : SubsystemHealth → Option Reason
reason healthy = none
reason (unhealthy r) = some r

pub record AppHealth : Type 0 where
  pub block_watcher : SubsystemHealth
  pub event_dispatcher : SubsystemHealth

-- `AppHealth::is_healthy`.
unfoldable pub app_is_healthy : AppHealth → Bool
unfolding is_healthy
app_is_healthy a = is_healthy a.block_watcher && is_healthy a.event_dispatcher

unfoldable pub health_handler : AppHealth → ℕ
unfolding app_is_healthy
health_handler a = if app_is_healthy a then 200 else 503

-- `/health` answers 200 exactly when neither subsystem has a reason to report.
pub health_handler_iff :
    (a : AppHealth)
    → (health_handler a ≡ 200)
      ↔ ((reason a.block_watcher ≡ none) × (reason a.event_dispatcher ≡ none))
unfolding health_handler reason
health_handler_iff a = ground arith
