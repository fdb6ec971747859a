-- ===== src/Health.antt =====
-- internal/health/health.go: the checks of gateways and their order.
-- `ctx` and its timeout are not modelled: a ping ends with its result.
pub mod Order
pub mod Bounds
pub mod Answered
pub mod Ping
use route_sync.Base.{
  ℕ, zero, suc, ◌+◌, ◌*◌, String, ◌<>◌, Bool, true, false, not, ◌&&◌, ◌||◌, Option, none, some,
  List, [], ◌∷◌, ◌++◌, any, keep, length, str_eq, if◌then◌else◌,
}
use route_sync.Base.Int.{ℤ, pos, eqb_ℤ, show_ℕ}
use route_sync.Base.Result.{Result, ok, err, Action, after_ok}
use route_sync.Netip.{Addr, zero_addr, is4, is6}
use route_sync.Config.{HealthCheck}
use route_sync.Metrics.{sanitize}

abbrev pub metric_base : ℕ
metric_base = 100

abbrev pub metric_step : ℕ
metric_step = 10

abbrev pub unhealthy_metric_offset : ℕ
unhealthy_metric_offset = 1000

abbrev pub default_ipv4_targets : List String
default_ipv4_targets = "8.8.8.8" ∷ "1.1.1.1" ∷ []

abbrev pub default_ipv6_targets : List String
default_ipv6_targets = "2001:4860:4860::8888" ∷ "2606:4700:4700::1111" ∷ []

pub record Candidate : Type 0 where
  pub name : String
  pub dev : String
  pub on_link : Bool
  pub via : Addr
  pub health_check : HealthCheck

pub record ResolvedHop : Type 0 where
  pub name : String
  pub dev : String
  pub link_index : ℤ
  pub on_link : Bool
  pub via : Addr
  pub metric : ℤ
  pub healthy : Bool
  pub checked_via : Addr

-- The name of a gauge of a gateway.
abbrev pub gauge : String → String → String → String
gauge name scope gateway =
    name <> "{scope=\"" <> sanitize scope <> "\",gateway=\"" <> sanitize gateway <> "\"}"

-- boolGauge
abbrev bool_gauge : Bool → ℤ
bool_gauge v = if v then pos 1 else pos 0

-- The world of Select: the link table, the Pinger, the gauges of the registry and ParseAddr.
pub record Probe (S : Type 0) : Type 0 where
  pub link_index_by_name : String → Action S ℤ
  pub ping : String → Addr → ℤ → Action S (Unit {0})
  pub set_gauge : String → ℤ → S → S
  pub parse_addr : String → Option Addr

-- The two `continue` tests on a target's address.
unfoldable pub wrong_family : String → Addr → Bool
wrong_family family addr =
    (str_eq family "ipv4" && not (is4 addr)) || (str_eq family "ipv6" && not (is6 addr))

module _ {S : Type 0} (w : Probe S) where
  -- The loop of evaluateCandidate over the targets left.
  unfoldable pub evaluate_targets : String → String → ℤ → List String → S → (Bool × Addr) × S
  unfolding wrong_family
  evaluate_targets family dev timeout [] s = ((false, zero_addr), s)
  evaluate_targets family dev timeout (raw ∷ rest) s = elim (w.parse_addr raw) [
    | none ↦ evaluate_targets family dev timeout rest s
    | some addr ↦ elim (wrong_family family addr) [
      | true ↦ evaluate_targets family dev timeout rest s
      | false ↦
          after_ok (w.ping dev addr timeout s) (λ _ t. ((true, addr), t))
            (λ _ t. evaluate_targets family dev timeout rest t)
    ]
  ]

  -- evaluateCandidate
  unfoldable pub evaluate_candidate : String → Candidate → S → (Bool × Addr) × S
  unfolding evaluate_targets
  evaluate_candidate family c s =
      evaluate_targets family c.dev
        (if eqb_ℤ c.health_check.timeout (pos 0) then pos 1_000_000_000 else c.health_check.timeout)
        (elim c.health_check.targets [
          | [] ↦ if str_eq family "ipv6" then default_ipv6_targets else default_ipv4_targets
          | t ∷ ts ↦ t ∷ ts
        ])
        s

  -- The first loop of Select, from candidate i on. The item's index is never read.
  unfoldable pub resolve_items : String → String → ℕ → List Candidate → Action S (List ResolvedHop)
  unfolding evaluate_candidate
  resolve_items family scope i [] s = (ok [], s)
  resolve_items family scope i (c ∷ cs) s =
      after_ok (w.link_index_by_name c.dev s)
        (λ link s₁.
          let ((healthy, checked), s₂) = evaluate_candidate family c s₁ in
          let name = if str_eq c.name "" then scope <> "-" <> show_ℕ (i + 1) else c.name in
          let hop : ResolvedHop = record {
            name = name;
            dev = c.dev;
            link_index = link;
            on_link = c.on_link;
            via = c.via;
            metric = pos 0;
            healthy = healthy;
            checked_via = checked;
          } in
          let s₃ = w.set_gauge (gauge "gateway_health" scope name) (bool_gauge healthy) s₂ in
          after_ok (resolve_items family scope (suc i) cs s₃) (λ hops t. (ok (hop ∷ hops), t))
            (λ e t. (err e, t)))
        (λ e t. (err e, t))

-- hasHealthy
unfoldable pub has_healthy : List ResolvedHop → Bool
has_healthy = any (λ h. h.healthy)

-- `ordered`: the healthy items first, or the configured order if there is none.
unfoldable pub order_items : List ResolvedHop → List ResolvedHop
unfolding has_healthy
order_items items =
    if has_healthy items
    then keep (λ h. h.healthy) items ++ keep (λ h. not h.healthy) items
    else items

-- The metric of the hop in place i.
unfoldable pub metric_at : Bool → ℕ → Bool → ℕ
metric_at any_healthy i healthy =
    metric_base
    + i * metric_step
    + (if any_healthy && not healthy then unhealthy_metric_offset else 0)

-- The last loop of Select, from place i on.
unfoldable pub number_items : Bool → ℕ → List ResolvedHop → List ResolvedHop
unfolding metric_at
number_items any_healthy i [] = []
number_items any_healthy i (h ∷ hs) =
    record h { metric = pos (metric_at any_healthy i h.healthy) }
    ∷ number_items any_healthy (suc i) hs

module _ {S : Type 0} (w : Probe S) where
  unfoldable pub publish_metrics : String → List ResolvedHop → S → S
  publish_metrics scope [] s = s
  publish_metrics scope (h ∷ hs) s =
      publish_metrics scope hs (w.set_gauge (gauge "gateway_metric" scope h.name) h.metric s)

  -- Select
  unfoldable pub select : String → String → List Candidate → Action S (List ResolvedHop)
  unfolding resolve_items order_items number_items publish_metrics
  select family scope candidates s = elim candidates [
    | [] ↦ (ok [], s)
    | c ∷ cs ↦
        after_ok (resolve_items w family scope 0 (c ∷ cs) s)
          (λ items t.
            let out = number_items (has_healthy items) 0 (order_items items) in
            (ok out, publish_metrics scope out t))
          (λ e t. (err e, t))
  ]
