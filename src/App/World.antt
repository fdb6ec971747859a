-- ===== src/App/World.antt =====
-- What internal/app/app.go works on: the machine outside, behind the interfaces that the program
-- calls, and the metrics registry.
use route_sync.Base.{String, ◌<>◌, List}
use route_sync.Base.Int.{ℤ}
use route_sync.Base.Result.{ok, err, Action, after_ok}
use route_sync.Netip.{Addr, Prefix}
use route_sync.Netip.Text.{NetipText}
use route_sync.Config.{Config}
use route_sync.Metrics
use route_sync.Metrics.{Registry}
use route_sync.Rtnl.{Kernel}
use route_sync.Health.{Probe}
use route_sync.State.{Files}
use route_sync.Planner.{Ranges}
use route_sync.App.Locals.{NetAddr}

-- The state of the machine is the kernel's `State`. `read_config` is os.ReadFile and
-- yaml.Unmarshal, and `fetch_ripe` and `fetch_txt` are Fetch of the two providers, at a country or
-- a URL and a timeout.
pub record World : Type 1 where
  pub kernel : Kernel
  pub text : NetipText
  pub ranges : Ranges
  pub files : Files kernel.State
  pub ping : String → Addr → ℤ → Action kernel.State (Unit {0})
  pub fetch_ripe : String → ℤ → Action kernel.State (List Prefix)
  pub fetch_txt : String → ℤ → Action kernel.State (List Prefix)
  pub interface_addrs : Action kernel.State (List NetAddr)
  pub read_config : String → Action kernel.State Config
  pub unix_now : kernel.State → ℤ

pub record AppState (O : Type 0) : Type 0 where
  pub outside : O
  pub registry : Registry

module _ {O : Type 0} where
  infixl 5 ◌>>=◌
  abbrev pub ◌>>=◌ :
      {A B : Type 0} → Action (AppState O) A → (A → Action (AppState O) B) → Action (AppState O) B
  ◌>>=◌ m f s = after_ok (m s) f (λ e t. (err e, t))

  abbrev pub pure : {A : Type 0} → A → Action (AppState O) A
  pure a s = (ok a, s)

  abbrev pub fail : {A : Type 0} → String → Action (AppState O) A
  fail e s = (err e, s)

  -- A call of the machine leaves the registry alone.
  abbrev pub lift : {A : Type 0} → Action O A → Action (AppState O) A
  lift m s = let (r, o) = m s.outside in (r, record { outside = o; registry = s.registry })

  abbrev pub record_metric : (Registry → Registry) → AppState O → AppState O
  record_metric f s = record { outside = s.outside; registry = f s.registry }

  -- fmt.Errorf("%s: ...: %w", ...)
  abbrev pub in_context : {A : Type 0} → String → Action (AppState O) A → Action (AppState O) A
  in_context context m s = after_ok (m s) pure (λ e t. (err (context <> (": " <> e)), t))

-- What health.Select is called with.
abbrev pub probe : (w : World) → Probe (AppState w.kernel.State)
probe w = record {
  link_index_by_name = λ name. lift (w.kernel.link_index_by_name name);
  ping = λ dev addr timeout. lift (w.ping dev addr timeout);
  set_gauge = λ name value. record_metric (Metrics.set name value);
  parse_addr = w.text.parse_addr;
}
