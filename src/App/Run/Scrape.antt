-- ===== src/App/Run/Scrape.antt =====
-- The registry of a daemon of internal/app/app.go as Handler of internal/metrics/metrics.go prints it.
use route_sync.Base.{
  ℕ, ◌+◌, ◌≡◌, refl, String, Bool, true, false, List, [], ◌∷◌, length, if◌then◌else◌,
}
use route_sync.Base.Int.{ℤ}
use route_sync.Base.Maps.{GoMap, IsOrder}
use route_sync.Base.Result.{Result, ok, err, after_ok, after_ok-keeps}
use route_sync.Base.Text.{has_any, count_any}
use route_sync.Base.Text.Fields.{IsFree}
use route_sync.Config.{Config}
use route_sync.Metrics
use route_sync.Metrics.{Registry, handler}
use route_sync.Metrics.Lines.{is_newline, IsUnbroken, inc-IsUnbroken, set-IsUnbroken, handler-lines}
use route_sync.Planner.{GroupPlan}
use route_sync.Reconcile.Routes
use route_sync.Reconcile.Rules
use route_sync.App.World.{World, AppState, lift}
use route_sync.App.Stays.{Stays, Out, bind-Stays, pure-Stays, if-Stays}
use route_sync.App.Plan.{App}
use route_sync.App.Run.{
  Options, Event, refresh_tick, health_tick, reload, stop, DaemonState, reconcile_once,
  cleanup_owned, counting_errors, apply_plan, load_config, run, on_reload, handle, daemon_loop,
  run_daemon,
}
use route_sync.App.Run.Reads.{MetricsKeep}
use route_sync.App.Run.Building.{build_plan-Stays, build_cleanup_plan-Stays}
use route_sync.App.Run.Counters.{AnyState, any_reads}

IsUnbroken-metrics : MetricsKeep IsUnbroken
unfolding has_any
IsUnbroken-metrics = record {
  fetched = λ r h. inc-IsUnbroken "source_fetch_success_total" r refl h;
  failed = λ r h. inc-IsUnbroken "source_fetch_failure_total" r refl h;
  gauges = λ name v r free h. set-IsUnbroken name v r free h;
}

module _ (w : World) where
  abbrev Unbroken : AppState w.kernel.State → Type 0
  Unbroken = Out AnyState IsUnbroken

  lifted : {A : Type 0} (m : w.kernel.State → Result A × w.kernel.State) → Stays Unbroken (lift m)
  lifted m = record { at = λ s h. (tt, h.1) }

  counting-Stays :
      {A : Type 0} (name : String) (m : App w A)
      → IsFree is_newline name
      → Stays Unbroken m
      → Stays Unbroken (counting_errors w name m)
  counting-Stays name m free km = record {
    at = λ s h.
        after_ok-keeps Unbroken (m s) _ _ (km.at s h) (λ _ t q. q)
          (λ e t q. (tt, inc-IsUnbroken name t.registry free q.1));
  }

  apply_plan-Stays :
      (failed : String) (plan : List GroupPlan)
      → IsFree is_newline failed
      → Stays Unbroken (apply_plan w failed plan)
  unfolding apply_plan
  apply_plan-Stays failed plan free =
      bind-Stays AnyState IsUnbroken _ _
        (counting-Stays failed (lift (Rules.apply w.kernel plan)) free (lifted _))
        (λ _. counting-Stays failed (lift (Routes.apply w.kernel w.text plan)) free (lifted _))

  reconcile-Stays : (cfg : Config) (dry : Bool) → Stays Unbroken (reconcile_once w cfg dry)
  unfolding reconcile_once has_any
  reconcile-Stays cfg dry =
      bind-Stays AnyState IsUnbroken _ _
        (counting-Stays "failed_reconcile_total" _ refl
          (build_plan-Stays w AnyState IsUnbroken (any_reads w) IsUnbroken-metrics cfg))
        (λ plan. if-Stays AnyState IsUnbroken dry _ _ (pure-Stays AnyState IsUnbroken tt) (
          bind-Stays AnyState IsUnbroken _ _ (apply_plan-Stays "failed_reconcile_total" plan refl)
            (λ _. record {
              at = λ s h. (
                tt,
                set-IsUnbroken "last_success_timestamp" (w.unix_now s.outside) _ refl
                    (inc-IsUnbroken "successful_reconcile_total" s.registry refl h.1),
              );
            })))

  cleanup-Stays : (cfg : Config) (dry : Bool) → Stays Unbroken (cleanup_owned w cfg dry)
  unfolding cleanup_owned has_any
  cleanup-Stays cfg dry =
      bind-Stays AnyState IsUnbroken _ _
        (counting-Stays "failed_cleanup_total" _ refl
          (build_cleanup_plan-Stays w AnyState IsUnbroken (any_reads w) IsUnbroken-metrics cfg))
        (λ plan. if-Stays AnyState IsUnbroken dry _ _ (pure-Stays AnyState IsUnbroken tt) (
          bind-Stays AnyState IsUnbroken _ _ (apply_plan-Stays "failed_cleanup_total" plan refl)
            (λ _. record {
              at = λ s h. (tt, inc-IsUnbroken "successful_cleanup_total" s.registry refl h.1);
            })))

module _ (w : World) (o : Options) where
  run-Unbroken :
      (cfg : Config) (s : AppState w.kernel.State) → Unbroken w s → Unbroken w (run w o cfg s)
  unfolding run
  run-Unbroken cfg s h = (reconcile-Stays w cfg o.dry_run).at s h

  on_reload-Unbroken :
      (d : DaemonState w.kernel.State) → Unbroken w d.app → Unbroken w (on_reload w o d).app
  unfolding on_reload
  on_reload-Unbroken d h =
      from (lift (load_config w o) d.app) ((lifted w (load_config w o)).at d.app h)
    where
      from :
          (m : Result Config × AppState w.kernel.State)
          → Unbroken w m.1
          → Unbroken w
              (after_ok {B = DaemonState w.kernel.State} m
                (λ next t. record { active = next; app = run w o next t; stopped = false })
                (λ e t. record { active = d.active; app = t; stopped = false })).app
      from (ok c, t) k = run-Unbroken c t k
      from (err e, t) k = k

  if-Unbroken :
      (b : Bool) (s t : AppState w.kernel.State)
      → Unbroken w s
      → Unbroken w t
      → Unbroken w (if b then s else t)
  if-Unbroken true s t h k = h
  if-Unbroken false s t h k = k

  handle-Unbroken :
      (e : Event) (d : DaemonState w.kernel.State)
      → Unbroken w d.app
      → Unbroken w (handle w o e d).app
  unfolding handle
  handle-Unbroken refresh_tick d h = run-Unbroken d.active d.app h
  handle-Unbroken health_tick d h = run-Unbroken d.active d.app h
  handle-Unbroken reload d h = on_reload-Unbroken d h
  handle-Unbroken stop d h =
      if-Unbroken d.active.global.cleanup_on_shutdown _ _
        ((cleanup-Stays w d.active o.dry_run).at d.app h) h

  daemon_loop-Unbroken :
      (es : List Event) (d : DaemonState w.kernel.State)
      → Unbroken w d.app
      → Unbroken w (daemon_loop w o es d).app
  unfolding daemon_loop
  daemon_loop-Unbroken [] d h = h
  daemon_loop-Unbroken (e ∷ es) d h =
      either d.stopped d (daemon_loop w o es (handle w o e d)) h
        (daemon_loop-Unbroken es (handle w o e d) (handle-Unbroken e d h))
    where
      either :
          (b : Bool) (c c' : DaemonState w.kernel.State)
          → Unbroken w c.app
          → Unbroken w c'.app
          → Unbroken w (if b then c else c').app
      either true c c' h k = h
      either false c c' h k = k

  -- What Handler prints of a daemon that has started with an empty registry has one line for each
  -- metric, whatever the names of groups and gateways are, whatever has happened, and whatever the
  -- orders of the maps are.
  pub handler-run_daemon :
      (counters : GoMap ℕ → GoMap ℕ) (gauges : GoMap ℤ → GoMap ℤ)
      → IsOrder counters
      → IsOrder gauges
      → (cfg : Config) (es : List Event) (s : w.kernel.State)
      → let r =
          (run_daemon w o cfg es (record { outside = s; registry = Metrics.new })).app.registry in
        count_any is_newline (handler counters gauges r) ≡ length r.counters + length r.gauges
  unfolding run_daemon
  handler-run_daemon counters gauges hc hg cfg es s =
      let start : AppState w.kernel.State = record { outside = s; registry = Metrics.new } in
      handler-lines counters gauges hc hg _
        (daemon_loop-Unbroken es (record { active = cfg; app = run w o cfg start; stopped = false })
          (run-Unbroken cfg start (tt, (refl, refl)))).1
