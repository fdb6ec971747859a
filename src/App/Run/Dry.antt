-- ===== src/App/Run/Dry.antt =====
-- reconcileOnce and cleanupOwned of internal/app/app.go with --dry-run.
use route_sync.Base.{String, true}
use route_sync.Base.Result.{after_ok-keeps}
use route_sync.Config.{Config}
use route_sync.Metrics.{Registry}
use route_sync.App.World.{World, AppState}
use route_sync.App.Stays.{Stays, Out, bind-Stays, pure-Stays}
use route_sync.App.Plan.{App}
use route_sync.App.Run.{reconcile_once, cleanup_owned, counting_errors}
use route_sync.App.Run.Reads.{ReadsKeep, MetricsKeep}
use route_sync.App.Run.Building.{build_plan-Stays, build_cleanup_plan-Stays}

-- Any registry.
abbrev pub AnyRegistry : Registry → Type 0
AnyRegistry r = Unit {0}

abbrev pub any_metrics : MetricsKeep AnyRegistry
any_metrics = record { fetched = λ r h. tt; failed = λ r h. tt; gauges = λ name v r free h. tt }

module _ (w : World) (P : w.kernel.State → Type 0) (k : ReadsKeep w P) where
  counting_errors-Stays :
      {A : Type 0} (name : String) (m : App w A)
      → Stays (Out P AnyRegistry) m
      → Stays (Out P AnyRegistry) (counting_errors w name m)
  counting_errors-Stays name m km = record {
    at = λ s p. after_ok-keeps (Out P AnyRegistry) (m s) _ _ (km.at s p) (λ _ t q. q) (λ _ t q. q);
  }

  -- What the calls that read the machine and the calls of the state store keep, a reconciliation
  -- with the dry-run flag keeps.
  pub reconcile_once_dry :
      (cfg : Config) (s : AppState w.kernel.State)
      → P s.outside
      → P (reconcile_once w cfg true s).1.outside
  unfolding reconcile_once
  reconcile_once_dry cfg s p =
      ((bind-Stays P AnyRegistry _ _
          (counting_errors-Stays _ _ (build_plan-Stays w P AnyRegistry k any_metrics cfg))
          (λ plan. pure-Stays P AnyRegistry tt)).at
        s (p, tt)).0

  -- The same of a clean-up with the dry-run flag.
  pub cleanup_owned_dry :
      (cfg : Config) (s : AppState w.kernel.State)
      → P s.outside
      → P (cleanup_owned w cfg true s).1.outside
  unfolding cleanup_owned
  cleanup_owned_dry cfg s p =
      ((bind-Stays P AnyRegistry _ _
          (counting_errors-Stays _ _ (build_cleanup_plan-Stays w P AnyRegistry k any_metrics cfg))
          (λ plan. pure-Stays P AnyRegistry tt)).at
        s (p, tt)).0
