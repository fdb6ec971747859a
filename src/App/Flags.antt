-- ===== src/App/Flags.antt =====
-- parseFlags of internal/app/app.go. The syntax of the flags is that of Go's flag package.
use route_sync.Base.{String, ◌<>◌, Bool, false, List, [], ◌∷◌}
use route_sync.Base.Int.{ℤ, pos}
use route_sync.Base.Result.{Result, ok, err}
use route_sync.App.Run.{Options}

-- A flag of a flag.FlagSet with its default: StringVar, BoolVar, DurationVar
pub data Flag : Type 0 where
  string_flag : String → String → Flag
  bool_flag : String → Bool → Flag
  duration_flag : String → ℤ → Flag

-- The values of the flags by their names, once they are parsed.
pub record Values : Type 0 where
  pub strings : String → String
  pub bools : String → Bool
  pub durations : String → ℤ

-- NewFlagSet and Parse: the name of the set, its flags and the arguments
abbrev pub FlagPackage : Type 0
FlagPackage = String → List Flag → List String → Result Values

-- What parseFlags declares
abbrev pub flags : List Flag
flags =
    string_flag "config" ""
    ∷ bool_flag "dry-run" false
    ∷ bool_flag "disable-ru-default" false
    ∷ string_flag "log-format" ""
    ∷ duration_flag "interval" (pos 0)
    ∷ string_flag "metrics-listen" ""
    ∷ bool_flag "cleanup-on-shutdown" false
    ∷ []

abbrev options_of : Values → Options
options_of v = record {
  config_path = v.strings "config";
  dry_run = v.bools "dry-run";
  disable_ru_default = v.bools "disable-ru-default";
  log_format = v.strings "log-format";
  interval = v.durations "interval";
  metrics_listen = v.strings "metrics-listen";
  cleanup_on_shutdown = v.bools "cleanup-on-shutdown";
}

-- parseFlags
unfoldable pub parse_flags : FlagPackage → String → List String → Result Options
parse_flags parse cmd args = elim (parse ("route-sync " <> cmd) flags args) [
  | ok v ↦ ok (options_of v)
  | err e ↦ err e
]
