-- ===== src/App/Run/Daemon.antt =====
-- The active configuration of runDaemon of internal/app/app.go.
use route_sync.Base.{◌≡◌, refl, ap, subst, Bool, true, false, List, [], ◌∷◌, if◌then◌else◌}
use route_sync.Base.Result.{Result, ok, err, after_ok-eq-ok}
use route_sync.Config.{Config, apply_defaults}
use route_sync.Config.Validate.{validate}
use route_sync.App.World.{World, AppState}
use route_sync.App.Run.{
  Options, Event, refresh_tick, health_tick, reload, stop, DaemonState, override, checked_config,
  config_of, load_config, on_reload, handle, daemon_loop, run_daemon,
}

abbrev Checked : Config → Result (Unit {0}) → Result Config
Checked c r = elim r [ ok _ ↦ ok c | err e ↦ err e ]

module _ (w : World) where
  Checked-eq-ok :
      (c d : Config) (r : Result (Unit {0})) → Checked c r ≡ ok d → (c ≡ d) × (r ≡ ok tt)
  Checked-eq-ok c d (ok _) h = (cc, refl)
  Checked-eq-ok c d (err e) h = cc

  checked_config-validate : (c d : Config) → checked_config w c ≡ ok d → validate w.text d ≡ ok tt
  unfolding checked_config
  checked_config-validate c d h =
      let (same, passes) = Checked-eq-ok c d (validate w.text c) h in
      subst (λ t. validate w.text t ≡ ok tt) same passes

  overridden : Options → Result Config → Result Config
  unfolding checked_config
  overridden o r = elim r [ err e ↦ err e | ok c ↦ checked_config w (override o c) ]

  overridden-validate :
      (o : Options) (r : Result Config) (d : Config)
      → overridden o r ≡ ok d
      → validate w.text d ≡ ok tt
  unfolding overridden
  overridden-validate o (ok c) d h = checked_config-validate (override o c) d h
  overridden-validate o (err e) d h = cc

  -- What loadConfig returns passes Validate, with the flags of the command line in it.
  config_of-validate :
      (o : Options) (decoded c : Config) → config_of w o decoded ≡ ok c → validate w.text c ≡ ok tt
  unfolding config_of overridden
  config_of-validate o decoded c h =
      overridden-validate o (checked_config w (apply_defaults decoded)) c h

  load_config-validate :
      (o : Options) (s t : w.kernel.State) (c : Config)
      → load_config w o s ≡ (ok c, t)
      → validate w.text c ≡ ok tt
  unfolding load_config
  load_config-validate o s t c h =
      let (decoded, u, _, e) = after_ok-eq-ok (w.read_config o.config_path s) _ h in
      config_of-validate o decoded c (ap (λ p. p.0) e)

module _ (w : World) (o : Options) where
  abbrev HasValid : DaemonState w.kernel.State → Type 0
  HasValid d = validate w.text d.active ≡ ok tt

  on_reload-HasValid : (d : DaemonState w.kernel.State) → HasValid d → HasValid (on_reload w o d)
  unfolding on_reload
  on_reload-HasValid d h = split (load_config w o d.app.outside) refl
    where
      split :
          (m : Result Config × w.kernel.State)
          → load_config w o d.app.outside ≡ m
          → HasValid (on_reload w o d)
      split (ok c, t) e = rw (e, on_reload) (load_config-validate w o d.app.outside t c e)
      split (err x, t) e = rw (e, on_reload) h

  handle-HasValid :
      (e : Event) (d : DaemonState w.kernel.State) → HasValid d → HasValid (handle w o e d)
  unfolding handle
  handle-HasValid refresh_tick d h = h
  handle-HasValid health_tick d h = h
  handle-HasValid reload d h = on_reload-HasValid d h
  handle-HasValid stop d h = h

  HasValid-if :
      (b : Bool) (d c : DaemonState w.kernel.State)
      → HasValid d
      → HasValid c
      → HasValid (if b then d else c)
  HasValid-if true d c h k = h
  HasValid-if false d c h k = k

  daemon_loop-HasValid :
      (es : List Event) (d : DaemonState w.kernel.State)
      → HasValid d
      → HasValid (daemon_loop w o es d)
  unfolding daemon_loop
  daemon_loop-HasValid [] d h = h
  daemon_loop-HasValid (e ∷ es) d h =
      HasValid-if d.stopped d _ h (daemon_loop-HasValid es (handle w o e d) (handle-HasValid e d h))

  -- A daemon that starts with a configuration that passes Validate works with one at all times,
  -- whatever ticks, signals and reloads come, and whatever the file holds at a reload.
  pub run_daemon-validate :
      (cfg : Config) (es : List Event) (s : AppState w.kernel.State)
      → validate w.text cfg ≡ ok tt
      → validate w.text (run_daemon w o cfg es s).active ≡ ok tt
  unfolding run_daemon
  run_daemon-validate cfg es s h = daemon_loop-HasValid es _ h
