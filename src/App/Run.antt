-- ===== src/App/Run.antt =====
-- reconcileOnce, cleanupOwned, loadConfig, ValidateReload and runDaemon of internal/app/app.go. The
-- log, the printed plan and the metrics server are not modelled.
pub mod Daemon
pub mod Reads
pub mod Building
pub mod Counters
pub mod Stopping
pub mod Scrape
pub mod Dry
pub mod DryDaemon
pub mod Cleaned
pub mod Inputs
pub mod Reconciled
pub mod Turns
pub mod Fallback
use route_sync.Base.{
  String, Bool, true, false, Option, none, some, List, [], ◌∷◌, str_eq, if◌then◌else◌,
}
use route_sync.Base.Int.{ℤ, pos, eqb_ℤ}
use route_sync.Base.Result.{Result, ok, err, Action, after_ok}
use route_sync.Config.{Config, GlobalConfig, apply_defaults, disable_ru_default}
use route_sync.Config.Validate.{validate}
use route_sync.Metrics
use route_sync.Planner.{GroupPlan}
use route_sync.Reconcile.Routes
use route_sync.Reconcile.Rules
use route_sync.App.World.{World, AppState, ◌>>=◌, pure, lift, record_metric}
use route_sync.App.Plan.{App, build_plan, build_cleanup_plan}

pub record Options : Type 0 where
  pub config_path : String
  pub dry_run : Bool
  pub disable_ru_default : Bool
  pub log_format : String
  pub interval : ℤ
  pub metrics_listen : String
  pub cleanup_on_shutdown : Bool

-- The flags over the settings of the file.
unfoldable pub override_global : Options → GlobalConfig → GlobalConfig
override_global o g = record g {
  log_format = if str_eq o.log_format "" then g.log_format else o.log_format;
  refresh_interval = if eqb_ℤ o.interval (pos 0) then g.refresh_interval else o.interval;
  metrics_listen = if str_eq o.metrics_listen "" then g.metrics_listen else o.metrics_listen;
  cleanup_on_shutdown = if o.cleanup_on_shutdown then true else g.cleanup_on_shutdown;
}

unfoldable pub override : Options → Config → Config
unfolding override_global
override o c =
    let base = if o.disable_ru_default then disable_ru_default c else c in
    record base { global = override_global o base.global }

-- selectLogFormat
unfoldable pub select_log_format : Options → Config → String
select_log_format o c = if str_eq o.log_format "" then c.global.log_format else o.log_format

module _ (w : World) where
  -- The steps of an action on the registry alone.
  abbrev count_metric : String → App w (Unit {0})
  count_metric name s = (ok tt, record_metric (Metrics.inc name) s)

  -- `if err := m; err != nil { reg.Inc(name); return err }`
  abbrev pub counting_errors : {A : Type 0} → String → App w A → App w A
  counting_errors name m s =
      after_ok (m s) pure (λ e t. (err e, record_metric (Metrics.inc name) t))

  -- rules.Apply and then routes.Apply, each with the counter of its failure.
  unfoldable pub apply_plan : String → List GroupPlan → App w (Unit {0})
  apply_plan failed plan = counting_errors failed (lift (Rules.apply w.kernel plan)) >>= λ _.
      counting_errors failed (lift (Routes.apply w.kernel w.text plan))

  -- reconcileOnce
  unfoldable pub reconcile_once : Config → Bool → App w (Unit {0})
  unfolding apply_plan
  reconcile_once cfg dry_run =
      counting_errors "failed_reconcile_total" (build_plan w cfg) >>= λ plan.
      if dry_run
      then pure tt
      else apply_plan "failed_reconcile_total" plan >>= λ _ s. (
        ok tt,
        record_metric (Metrics.set "last_success_timestamp" (w.unix_now s.outside))
            (record_metric (Metrics.inc "successful_reconcile_total") s),
      )

  -- cleanupOwned
  unfoldable pub cleanup_owned : Config → Bool → App w (Unit {0})
  unfolding apply_plan
  cleanup_owned cfg dry_run =
      counting_errors "failed_cleanup_total" (build_cleanup_plan w cfg) >>= λ plan.
      if dry_run
      then pure tt
      else apply_plan "failed_cleanup_total" plan >>= λ _. count_metric "successful_cleanup_total"

  -- Load of internal/config/config.go, from the decoded file on
  unfoldable pub checked_config : Config → Result Config
  checked_config c = elim (validate w.text c) [ ok _ ↦ ok c | err e ↦ err e ]

  -- The part of loadConfig after the file has been decoded.
  unfoldable pub config_of : Options → Config → Result Config
  unfolding checked_config override
  config_of o decoded = elim (checked_config (apply_defaults decoded)) [
    | err e ↦ err e
    | ok c ↦ checked_config (override o c)
  ]

  -- loadConfig
  unfoldable pub load_config : Options → Action w.kernel.State Config
  unfolding config_of
  load_config o s =
      after_ok (w.read_config o.config_path s) (λ decoded t. (config_of o decoded, t))
        (λ e t. (err e, t))

  -- ValidateReload, which has no caller but tests
  unfoldable pub validate_reload : Config → Options → Action w.kernel.State Config
  validate_reload current o s =
      after_ok (load_config o s) (λ next t. (ok next, t)) (λ e t. (err e, t))

-- What the `select` of runDaemon waits for.
pub data Event : Type 0 where
  refresh_tick health_tick reload stop : Event

-- The daemon's `active` configuration and its world, and whether it has returned.
pub record DaemonState (O : Type 0) : Type 0 where
  pub active : Config
  pub app : AppState O
  pub stopped : Bool

module _ (w : World) (o : Options) where
  -- `run`: the error is only logged.
  unfoldable pub run : Config → AppState w.kernel.State → AppState w.kernel.State
  unfolding reconcile_once
  run cfg s = (reconcile_once w cfg o.dry_run s).1

  -- The case of SIGHUP.
  unfoldable pub on_reload : DaemonState w.kernel.State → DaemonState w.kernel.State
  unfolding load_config run
  on_reload d =
      after_ok (lift (load_config w o) d.app)
        (λ next t. record { active = next; app = run next t; stopped = false })
        (λ e t. record { active = d.active; app = t; stopped = false })

  -- One turn of the loop of runDaemon.
  unfoldable pub handle : Event → DaemonState w.kernel.State → DaemonState w.kernel.State
  unfolding on_reload run cleanup_owned
  handle refresh_tick d = record d { app = run d.active d.app }
  handle health_tick d = record d { app = run d.active d.app }
  handle reload d = on_reload d
  handle stop d = record {
    active = d.active;
    app =
        if d.active.global.cleanup_on_shutdown
        then (cleanup_owned w d.active o.dry_run d.app).1
        else d.app;
    stopped = true;
  }

  -- The loop, over what happens. It returns at the first `stop`.
  unfoldable pub daemon_loop : List Event → DaemonState w.kernel.State → DaemonState w.kernel.State
  unfolding handle
  daemon_loop [] d = d
  daemon_loop (e ∷ es) d = if d.stopped then d else daemon_loop es (handle e d)

  -- runDaemon
  unfoldable pub run_daemon :
      Config → List Event → AppState w.kernel.State → DaemonState w.kernel.State
  unfolding daemon_loop
  run_daemon cfg events s =
      daemon_loop events (record { active = cfg; app = run cfg s; stopped = false })
