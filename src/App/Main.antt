-- ===== src/App/Main.antt =====
-- Run of internal/app/app.go: the dispatch of the commands; cmd/route-sync/main.go. `parse_flags` is parseFlags, whose
-- syntax is that of Go's flag package. What the commands print is not modelled.
pub mod Dry
use route_sync.Base.{
  ℕ, ◌<>◌, String, Bool, true, false, not, ◌&&◌, ◌||◌, List, [], ◌∷◌, str_eq, if◌then◌else◌,
}
use route_sync.Base.Result.{Result, ok, err, Action, after_ok}
use route_sync.Config.{Config}
use route_sync.Metrics
use route_sync.App.World.{World, AppState, ◌>>=◌, pure, fail, lift}
use route_sync.App.Plan.{App, build_plan}
use route_sync.App.Run.{Options, Event, load_config, reconcile_once, cleanup_owned, run_daemon}

-- usage
abbrev pub usage : String
usage =
    "usage: route-sync {check|apply|cleanup|daemon|version} --config /etc/route-sync.yaml [--dry-run] [--disable-ru-default] [--log-format text|json] [--interval 1h] [--metrics-listen 127.0.0.1:9108] [--cleanup-on-shutdown]"

module _ (w : World) where
  -- The `switch` of Run. `events` is what a daemon waits for.
  unfoldable pub dispatch : String → Options → List Event → Config → App w (Unit {0})
  dispatch cmd opts events cfg =
      if str_eq cmd "check"
      then (build_plan w cfg >>= λ plan. pure tt)
      else if str_eq cmd "apply"
      then reconcile_once w cfg opts.dry_run
      else if str_eq cmd "cleanup"
      then cleanup_owned w cfg opts.dry_run
      else if str_eq cmd "daemon"
      then (λ s. (ok tt, (run_daemon w opts cfg events s).app))
      else fail usage

  abbrev with_new_registry : {A : Type 0} → App w A → App w A
  with_new_registry m s = m (record s { registry = Metrics.new })

  -- Run from loadConfig on, with the registry of metrics.New.
  unfoldable pub run_command : String → Options → List Event → App w (Unit {0})
  unfolding dispatch
  run_command cmd opts events =
      if str_eq opts.config_path ""
      then fail "--config is required"
      else lift (load_config w opts) >>= λ cfg. with_new_registry (dispatch cmd opts events cfg)

  -- Run
  unfoldable pub run_app :
      (String → List String → Result Options) → List String → List Event → App w (Unit {0})
  unfolding run_command
  run_app parse_flags [] events = fail usage
  run_app parse_flags (cmd ∷ args) events =
      if str_eq cmd "version"
      then pure tt
      else elim (parse_flags cmd args) as (λ _. App w (Unit {0})) [
        | err e ↦ fail e
        | ok opts ↦ run_command cmd opts events
      ]

-- `main` of cmd/route-sync/main.go: what it prints on standard error, and the code it exits with.
unfoldable pub exit_of : Result (Unit {0}) → String × ℕ
exit_of (ok _) = ("", 0)
exit_of (err e) = (e <> "\n", 1)
