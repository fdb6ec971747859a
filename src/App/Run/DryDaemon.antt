-- ===== src/App/Run/DryDaemon.antt =====
-- runDaemon of internal/app/app.go with --dry-run.
use route_sync.Base.{String, ◌≡◌, Bool, true, false, List, [], ◌∷◌, subst, sym, if◌then◌else◌}
use route_sync.Base.Result.{Result, ok, err, after_ok, after_ok-keeps}
use route_sync.Config.{Config}
use route_sync.App.World.{World, AppState}
use route_sync.App.Candidates.Keeps.{Keeps}
use route_sync.App.Run.{
  Options, Event, refresh_tick, health_tick, reload, stop, DaemonState, reconcile_once,
  cleanup_owned, config_of, load_config, run, on_reload, handle, daemon_loop, run_daemon,
}
use route_sync.App.Run.Reads.{ReadsKeep}
use route_sync.App.Run.Dry.{reconcile_once_dry, cleanup_owned_dry}

module _ (w : World) (o : Options) (P : w.kernel.State → Type 0)
    (configs : (file : String) → Keeps P (w.read_config file)) where
  pub load_config-keeps : Keeps P (load_config w o)
  unfolding load_config
  load_config-keeps s p =
      after_ok-keeps P (w.read_config o.config_path s) (λ decoded t. (config_of w o decoded, t)) _
        (configs o.config_path s p) (λ _ t q. q) (λ _ t q. q)

module _ (w : World) (o : Options) (P : w.kernel.State → Type 0) (k : ReadsKeep w P)
    (configs : (file : String) → Keeps P (w.read_config file)) (dry : o.dry_run ≡ true) where
  run-keeps : (cfg : Config) (s : AppState w.kernel.State) → P s.outside → P (run w o cfg s).outside
  unfolding run
  run-keeps cfg s p =
      subst (λ b. P (reconcile_once w cfg b s).1.outside) (sym dry)
        (reconcile_once_dry w P k cfg s p)

  cleanup-keeps :
      (b : Bool) (cfg : Config) (s : AppState w.kernel.State)
      → P s.outside
      → P (if b then (cleanup_owned w cfg o.dry_run s).1 else s).outside
  cleanup-keeps false cfg s p = p
  cleanup-keeps true cfg s p =
      subst (λ b. P (cleanup_owned w cfg b s).1.outside) (sym dry) (cleanup_owned_dry w P k cfg s p)

  on_reload-keeps :
      (d : DaemonState w.kernel.State) → P d.app.outside → P (on_reload w o d).app.outside
  unfolding on_reload
  on_reload-keeps d p =
      split (load_config w o d.app.outside) (load_config-keeps w o P configs d.app.outside p)
    where
      split :
          (m : Result Config × w.kernel.State)
          → P m.1
          → P
              (after_ok {B = DaemonState w.kernel.State}
                (m.0, record { outside = m.1; registry = d.app.registry })
                (λ next t. record { active = next; app = run w o next t; stopped = false })
                (λ e t. record { active = d.active; app = t; stopped = false })).app.outside
      split (ok c, t) q = run-keeps c (record { outside = t; registry = d.app.registry }) q
      split (err e, t) q = q

  handle-keeps :
      (e : Event) (d : DaemonState w.kernel.State)
      → P d.app.outside
      → P (handle w o e d).app.outside
  unfolding handle
  handle-keeps refresh_tick d p = run-keeps d.active d.app p
  handle-keeps health_tick d p = run-keeps d.active d.app p
  handle-keeps reload d p = on_reload-keeps d p
  handle-keeps stop d p = cleanup-keeps d.active.global.cleanup_on_shutdown d.active d.app p

  daemon_loop-keeps :
      (es : List Event) (d : DaemonState w.kernel.State)
      → P d.app.outside
      → P (daemon_loop w o es d).app.outside
  unfolding daemon_loop
  daemon_loop-keeps [] d p = p
  daemon_loop-keeps (e ∷ es) d p =
      either d.stopped d (daemon_loop w o es (handle w o e d)) p
        (daemon_loop-keeps es (handle w o e d) (handle-keeps e d p))
    where
      either :
          (b : Bool) (c c' : DaemonState w.kernel.State)
          → P c.app.outside
          → P c'.app.outside
          → P (if b then c else c').app.outside
      either true c c' q r = q
      either false c c' q r = r

  -- With the dry-run flag a daemon, whatever it waits for and reloads, keeps what the calls that
  -- read the machine, the calls of the state store and the reads of the configuration keep.
  pub run_daemon_dry :
      (cfg : Config) (es : List Event) (s : AppState w.kernel.State)
      → P s.outside
      → P (run_daemon w o cfg es s).app.outside
  unfolding run_daemon
  run_daemon_dry cfg es s p = daemon_loop-keeps es _ (run-keeps cfg s p)
