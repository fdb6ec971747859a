-- ===== src/Config.antt =====
-- internal/config/config.go: the configuration, its defaults and its groups.
-- Durations are nanoseconds. `yaml.Unmarshal` gives the Config that the functions start from.
pub mod Validate
pub mod File
use route_sync.Base.{
  ℕ, String, Bool, true, false, ◌&&◌, Option, none, some, List, [], ◌∷◌, ◌++◌, str_eq, keep,
  if◌then◌else◌,
}
use route_sync.Base.Int.{ℤ, pos, eqb_ℤ}
use route_sync.Base.Result.{Result, ◌>>=◌}

-- Duration.UnmarshalYAML, over Node.Decode and time.ParseDuration
unfoldable pub unmarshal_duration :
    {N : Type 0} → (N → Result String) → (String → Result ℤ) → N → Result ℤ
unmarshal_duration decode parse_duration node = decode node >>= parse_duration

pub record HealthCheck : Type 0 where
  pub targets : List String
  pub timeout : ℤ

pub record GatewayConfig : Type 0 where
  pub name : String
  pub dev : String
  pub via : String
  pub via4 : String
  pub via6 : String
  pub on_link : Bool
  pub health_check : HealthCheck

pub record NextHopConfig : Type 0 where
  pub dev : String
  pub via : String
  pub via4 : String
  pub via6 : String
  pub on_link : Bool
  pub health_check : HealthCheck
  pub gateways : List GatewayConfig

pub record TargetConfig : Type 0 where
  pub table : ℤ
  pub dev : String
  pub via : String
  pub via4 : String
  pub via6 : String
  pub on_link : Bool
  pub family : String
  pub health_check : HealthCheck
  pub gateways : List GatewayConfig
  pub default : Option NextHopConfig
  pub exclude_local_ips : Bool
  pub exclude_prefixes : List String

pub record SourceConfig : Type 0 where
  pub source_type : String
  pub country : String
  pub url : String

pub record RuleConfig : Type 0 where
  pub enabled : Bool
  pub priority : ℤ
  pub fw_mark : ℕ
  pub mask : ℕ
  pub table : ℤ
  pub from : String

pub record RouteGroup : Type 0 where
  pub name : String
  pub enabled : Bool
  pub source : SourceConfig
  pub target : TargetConfig
  pub rule : RuleConfig

pub record GlobalConfig : Type 0 where
  pub refresh_interval : ℤ
  pub health_check_interval : ℤ
  pub http_timeout : ℤ
  pub state_dir : String
  pub log_format : String
  pub metrics_listen : String
  pub route_protocol : ℤ
  pub rule_priority_base : ℤ
  pub rule_priority_step : ℤ
  pub enable_prefix_aggregation : Bool
  pub cleanup_on_shutdown : Bool

-- `Defaults` and `Routing` hold one field each; a `*bool` is an optional Bool.
pub record Defaults : Type 0 where
  pub enable_ru_builtin_source : Option Bool

pub record Routing : Type 0 where
  pub ru_default : RouteGroup

pub record Config : Type 0 where
  pub global : GlobalConfig
  pub defaults : Defaults
  pub routing : Routing
  pub special_zones : List RouteGroup

-- `if x == 0 { x = d }` and `if s == "" { s = d }`
abbrev pub int_or : ℤ → ℤ → ℤ
int_or x d = if eqb_ℤ x (pos 0) then d else x

abbrev pub text_or : String → String → String
text_or s d = if str_eq s "" then d else s

abbrev default_bool : Option Bool → Option Bool
default_bool none = some true
default_bool (some b) = some b

-- ApplyDefaults, by the parts of the configuration
unfoldable pub default_global : GlobalConfig → GlobalConfig
default_global g = record {
  refresh_interval = int_or g.refresh_interval (pos 3_600_000_000_000);
  health_check_interval = int_or g.health_check_interval (pos 5_000_000_000);
  http_timeout = int_or g.http_timeout (pos 30_000_000_000);
  state_dir = text_or g.state_dir "/var/lib/route-sync";
  log_format = text_or g.log_format "text";
  metrics_listen = text_or g.metrics_listen "127.0.0.1:9108";
  route_protocol = int_or g.route_protocol (pos 99);
  rule_priority_base = int_or g.rule_priority_base (pos 1000);
  rule_priority_step = int_or g.rule_priority_step (pos 10);
  enable_prefix_aggregation = g.enable_prefix_aggregation;
  cleanup_on_shutdown = g.cleanup_on_shutdown;
}

unfoldable pub default_source : SourceConfig → SourceConfig
default_source s =
    if str_eq s.source_type "" then record s { source_type = "ripe_country"; country = "RU" } else s

unfoldable pub apply_defaults : Config → Config
unfolding default_global default_source
apply_defaults c = record c {
  global = default_global c.global;
  defaults = record { enable_ru_builtin_source = default_bool c.defaults.enable_ru_builtin_source };
  routing = record {
    ru_default = record c.routing.ru_default {
      name = text_or c.routing.ru_default.name "ru_default";
      source = default_source c.routing.ru_default.source;
    };
  };
}

-- DisableRUDefault
unfoldable pub disable_ru_default : Config → Config
disable_ru_default c = record c {
  defaults = record { enable_ru_builtin_source = some false };
  routing = record { ru_default = record c.routing.ru_default { enabled = false } };
}

abbrev is_some_true : Option Bool → Bool
is_some_true none = false
is_some_true (some b) = b

-- The condition of the RU default group in Groups and in Validate.
unfoldable pub ru_default_active : Config → Bool
ru_default_active c =
    c.routing.ru_default.enabled && is_some_true c.defaults.enable_ru_builtin_source

-- Groups
unfoldable pub groups : Config → List RouteGroup
unfolding ru_default_active
groups c =
    (if ru_default_active c then record c.routing.ru_default { name = "ru_default" } ∷ [] else [])
    ++ keep (λ g. g.enabled) c.special_zones

-- The first text that is not empty: `coalesce`.
unfoldable pub coalesce : List String → String
coalesce [] = ""
coalesce (v ∷ vs) = if str_eq v "" then coalesce vs else v

-- mergeHealthChecks, here and in internal/app/app.go
unfoldable pub merge_health_checks : HealthCheck → HealthCheck → HealthCheck
merge_health_checks parent child = record {
  targets = elim child.targets [ [] ↦ parent.targets | t ∷ ts ↦ t ∷ ts ];
  timeout = if eqb_ℤ child.timeout (pos 0) then parent.timeout else child.timeout;
}
