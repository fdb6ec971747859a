-- ===== src/App/Main/Dry.antt =====
-- Run of internal/app/app.go without a command that may change the machine.
use route_sync.Base.{
  ◌≡◌, refl, sym, String, Bool, true, false, not, ◌&&◌, ◌||◌, List, ◌∷◌, str_eq, arith, subst,
  Bool-cases, inl, inr,
}
use route_sync.Base.Result.{Result, ok, err}
use route_sync.Config.{Config}
use route_sync.Metrics
use route_sync.App.World.{World, AppState, fail, lift}
use route_sync.App.Candidates.Keeps.{Keeps}
use route_sync.App.Stays.{Stays, Out, lift-Stays, bind-Stays, pure-Stays, if-Stays}
use route_sync.App.Plan.{App}
use route_sync.App.Run.{Options, Event, load_config, reconcile_once, cleanup_owned, run_daemon}
use route_sync.App.Run.Reads.{ReadsKeep}
use route_sync.App.Run.Building.{build_plan-Stays}
use route_sync.App.Run.Dry.{AnyRegistry, any_metrics, reconcile_once_dry, cleanup_owned_dry}
use route_sync.App.Run.DryDaemon.{load_config-keeps, run_daemon_dry}
use route_sync.App.Main.{usage, with_new_registry, dispatch, run_command, run_app}

-- The commands that may change routes and rules, unless they are dry.
abbrev pub may_change : String → Options → Bool
may_change cmd opts =
    not opts.dry_run && (str_eq cmd "apply" || str_eq cmd "cleanup" || str_eq cmd "daemon")

module _ (w : World) (P : w.kernel.State → Type 0) (k : ReadsKeep w P)
    (configs : (file : String) → Keeps P (w.read_config file)) where
  fail-Stays : {A : Type 0} (e : String) → Stays {A = A} (Out P AnyRegistry) (fail e)
  fail-Stays e = record { at = λ s p. p }

  dry_dispatch-Stays :
      (cmd : String) (opts : Options) (events : List Event) (cfg : Config)
      → opts.dry_run ≡ true
      → Stays (Out P AnyRegistry) (dispatch w cmd opts events cfg)
  unfolding dispatch
  dry_dispatch-Stays cmd opts events cfg dry =
      if-Stays P AnyRegistry (str_eq cmd "check") _ _
        (bind-Stays P AnyRegistry _ _ (build_plan-Stays w P AnyRegistry k any_metrics cfg)
          (λ plan. pure-Stays P AnyRegistry tt))
        (if-Stays P AnyRegistry (str_eq cmd "apply") _ _
          (subst (λ b. Stays (Out P AnyRegistry) (reconcile_once w cfg b)) (sym dry)
            (record { at = λ s p. (reconcile_once_dry w P k cfg s p.0, tt) }))
          (if-Stays P AnyRegistry (str_eq cmd "cleanup") _ _
            (subst (λ b. Stays (Out P AnyRegistry) (cleanup_owned w cfg b)) (sym dry)
              (record { at = λ s p. (cleanup_owned_dry w P k cfg s p.0, tt) }))
            (if-Stays P AnyRegistry (str_eq cmd "daemon")
              (λ s. (ok tt, (run_daemon w opts cfg events s).app)) _
              (record { at = λ s p. (run_daemon_dry w opts P k configs dry cfg events s p.0, tt) })
              (fail-Stays usage))))

  harmless_dispatch-Stays :
      (cmd : String) (opts : Options) (events : List Event) (cfg : Config)
      → (str_eq cmd "apply" || str_eq cmd "cleanup" || str_eq cmd "daemon") ≡ false
      → Stays (Out P AnyRegistry) (dispatch w cmd opts events cfg)
  unfolding dispatch
  harmless_dispatch-Stays cmd opts events cfg h =
      let not_apply : str_eq cmd "apply" ≡ false = ground arith in
      let not_cleanup : str_eq cmd "cleanup" ≡ false = ground arith in
      let not_daemon : str_eq cmd "daemon" ≡ false = ground arith in
      if-Stays P AnyRegistry (str_eq cmd "check") _ _
        (bind-Stays P AnyRegistry _ _ (build_plan-Stays w P AnyRegistry k any_metrics cfg)
          (λ plan. pure-Stays P AnyRegistry tt))
        (rw (not_apply, not_cleanup, not_daemon) (fail-Stays usage))

  dispatch-Stays :
      (cmd : String) (opts : Options) (events : List Event) (cfg : Config)
      → may_change cmd opts ≡ false
      → Stays (Out P AnyRegistry) (dispatch w cmd opts events cfg)
  dispatch-Stays cmd opts events cfg h = elim (Bool-cases opts.dry_run) [
    | inl dry ↦ dry_dispatch-Stays cmd opts events cfg dry
    | inr wet ↦ harmless_dispatch-Stays cmd opts events cfg (ground (arith, h, wet))
  ]

  run_command-Stays :
      (cmd : String) (opts : Options) (events : List Event)
      → may_change cmd opts ≡ false
      → Stays (Out P AnyRegistry) (run_command w cmd opts events)
  unfolding run_command
  run_command-Stays cmd opts events h =
      if-Stays P AnyRegistry (str_eq opts.config_path "") _ _ (fail-Stays "--config is required") (
        bind-Stays P AnyRegistry (lift (load_config w opts))
          (λ cfg. with_new_registry w (dispatch w cmd opts events cfg))
          (lift-Stays P AnyRegistry (load_config w opts)
            (record { at = load_config-keeps w opts P configs }))
          (λ cfg. record {
            at = λ s p.
                (dispatch-Stays cmd opts events cfg h).at (record s { registry = Metrics.new }) p;
          }))

  -- Run keeps what the calls that read the machine, the calls of the state store and the reads of
  -- the configuration keep, unless the command is apply, cleanup or daemon and its flags lack
  -- --dry-run.
  pub run_app-keeps :
      (parse_flags : String → List String → Result Options) (cmd : String) (args : List String)
      (events : List Event) (s : AppState w.kernel.State)
      → ((opts : Options) → parse_flags cmd args ≡ ok opts → may_change cmd opts ≡ false)
      → P s.outside
      → P (run_app w parse_flags (cmd ∷ args) events s).1.outside
  unfolding run_app
  run_app-keeps parse_flags cmd args events s h p =
      ((if-Stays P AnyRegistry (str_eq cmd "version") _ _ (pure-Stays P AnyRegistry tt)
          (parsed (parse_flags cmd args) h)).at
        s (p, tt)).0
    where
      parsed :
          (r : Result Options)
          → ((opts : Options) → r ≡ ok opts → may_change cmd opts ≡ false)
          → Stays (Out P AnyRegistry) (elim r as (λ _. App w (Unit {0})) [
            | err e ↦ fail e
            | ok opts ↦ run_command w cmd opts events
          ])
      parsed (err e) g = fail-Stays e
      parsed (ok opts) g = run_command-Stays cmd opts events (g opts refl)
