-- ===== src/App/Candidates/Keeps.antt =====
-- Predicates on states through the resolution of gateways in internal/app/app.go and
-- internal/health/health.go.
use route_sync.Base.{
  refl, ℕ, suc, String, ◌<>◌, Bool, true, false, Option, none, some, List, [], ◌∷◌,
}
use route_sync.Base.Int.{ℤ}
use route_sync.Base.Result.{Action, after_ok, after_ok-keeps}
use route_sync.Base.Text.{has_any}
use route_sync.Base.Text.Fields.{IsFree}
use route_sync.Metrics.Lines.{is_newline, IsFree-append, label_end-IsFree, sanitize-IsFree}
use route_sync.Netip.{Addr}
use route_sync.Config.{NextHopConfig, TargetConfig}
use route_sync.Health.{
  gauge, Candidate, ResolvedHop, Probe, evaluate_targets, resolve_items, publish_metrics, select,
  wrong_family, number_items, has_healthy, order_items,
}
use route_sync.Netip.Text.{NetipText}
use route_sync.App.Candidates.{
  filter_candidates_by_family, resolves_v4, resolves_v6, select_if, resolve_candidates,
  resolve_target_hops, resolve_default_hops, gateways_from_target, gateways_from_next_hop,
}

-- The state after a run satisfies P if the state before it does.
abbrev pub Keeps : {S A : Type 0} → (S → Type 0) → Action S A → Type 0
Keeps {S} P m = (s : S) → P s → P (m s).1

scope_label-IsFree : IsFree is_newline "{scope=\""
unfolding has_any
scope_label-IsFree = refl

gateway_label-IsFree : IsFree is_newline "\",gateway=\""
unfolding has_any
gateway_label-IsFree = refl

gauge-IsFree :
    (name scope gateway : String)
    → IsFree is_newline name
    → IsFree is_newline (gauge name scope gateway)
gauge-IsFree name scope gateway h = IsFree-append _ _ h (
    IsFree-append _ _ scope_label-IsFree (
      IsFree-append _ _ (sanitize-IsFree scope) (
        IsFree-append _ _ gateway_label-IsFree
          (IsFree-append _ _ (sanitize-IsFree gateway) label_end-IsFree))))

health_gauge-IsFree :
    (scope gateway : String) → IsFree is_newline (gauge "gateway_health" scope gateway)
unfolding has_any
health_gauge-IsFree scope gateway = gauge-IsFree "gateway_health" scope gateway refl

metric_gauge-IsFree :
    (scope gateway : String) → IsFree is_newline (gauge "gateway_metric" scope gateway)
unfolding has_any
metric_gauge-IsFree scope gateway = gauge-IsFree "gateway_metric" scope gateway refl

-- The parts of a probe keep P, at gauges whose names hold no newline.
pub record ProbeKeeps {S : Type 0} (P : S → Type 0) (w : Probe S) : Type 0 where
  pub links : (name : String) → Keeps P (w.link_index_by_name name)
  pub pings : (dev : String) (a : Addr) (timeout : ℤ) → Keeps P (w.ping dev a timeout)
  pub gauges :
      (name : String) (v : ℤ) (s : S) → IsFree is_newline name → P s → P (w.set_gauge name v s)

module _ {S : Type 0} (P : S → Type 0) (w : Probe S) (k : ProbeKeeps P w) where
  evaluate_targets-keeps :
      (family dev : String) (timeout : ℤ) (targets : List String) (s : S)
      → P s
      → P (evaluate_targets w family dev timeout targets s).1
  unfolding evaluate_targets
  evaluate_targets-keeps family dev timeout [] s h = h
  evaluate_targets-keeps family dev timeout (raw ∷ rest) s h =
      at_target (w.parse_addr raw) (λ a. wrong_family family a)
        (evaluate_targets-keeps family dev timeout rest)
    where
      at_target :
          (o : Option Addr) (wrong : Addr → Bool)
          → ((t : S) → P t → P (evaluate_targets w family dev timeout rest t).1)
          → P
              (elim o as (λ _. (Bool × Addr) × S) [
                | none ↦ evaluate_targets w family dev timeout rest s
                | some addr ↦ elim (wrong addr) [
                  | true ↦ evaluate_targets w family dev timeout rest s
                  | false ↦
                      after_ok
                        (w.ping dev addr timeout s)
                        (λ _ t. ((true, addr), t))
                        (λ _ t. evaluate_targets w family dev timeout rest t)
                ]
              ]).1
      at_target none wrong ih = ih s h
      at_target (some a) wrong ih = at_address (wrong a)
        where
          at_address :
              (b : Bool)
              → P
                  (elim b as (λ _. (Bool × Addr) × S) [
                    | true ↦ evaluate_targets w family dev timeout rest s
                    | false ↦
                        after_ok
                          (w.ping dev a timeout s)
                          (λ _ t. ((true, a), t))
                          (λ _ t. evaluate_targets w family dev timeout rest t)
                  ]).1
          at_address true = ih s h
          at_address false =
              after_ok-keeps P (w.ping dev a timeout s) _ _ (k.pings dev a timeout s h) (λ _ t p. p)
                (λ _ t p. ih t p)

  -- Select keeps P, through its candidates one by one.
  resolve_items-keeps :
      (family scope : String) (i : ℕ) (cs : List Candidate)
      → Keeps P (resolve_items w family scope i cs)
  unfolding resolve_items
  resolve_items-keeps family scope i [] s h = h
  resolve_items-keeps family scope i (c ∷ cs) s h =
      after_ok-keeps P (w.link_index_by_name c.dev s) _ _ (k.links c.dev s h)
        (λ link t p.
          after_ok-keeps P (resolve_items w family scope (suc i) cs _) _ _
            (resolve_items-keeps family scope (suc i) cs _ (
              k.gauges _ _ _ (health_gauge-IsFree scope _)
                (evaluate_targets-keeps family c.dev _ _ t p)))
            (λ _ u q. q) (λ _ u q. q))
        (λ _ t p. p)

  publish_metrics-keeps :
      (scope : String) (hs : List ResolvedHop) (s : S) → P s → P (publish_metrics w scope hs s)
  unfolding publish_metrics
  publish_metrics-keeps scope [] s h = h
  publish_metrics-keeps scope (x ∷ xs) s h =
      publish_metrics-keeps scope xs _ (k.gauges _ _ s (metric_gauge-IsFree scope x.name) h)

  select-keeps : (family scope : String) (cs : List Candidate) → Keeps P (select w family scope cs)
  unfolding select
  select-keeps family scope [] s h = h
  select-keeps family scope (c ∷ cs) s h =
      after_ok-keeps P (resolve_items w family scope 0 (c ∷ cs) s) _ _
        (resolve_items-keeps family scope 0 (c ∷ cs) s h)
        (λ items t p.
          publish_metrics-keeps scope (number_items (has_healthy items) 0 (order_items items)) t p)
        (λ _ t p. p)

  select_if-keeps :
      (wanted : Bool) (family scope : String) (cs : List Candidate)
      → Keeps P (select_if w wanted family scope cs)
  select_if-keeps true family scope cs s h = select-keeps family scope cs s h
  select_if-keeps false family scope cs s h = h

  pub resolve_candidates-keeps :
      (scope family : String) (cs : List Candidate) → Keeps P (resolve_candidates w scope family cs)
  unfolding resolve_candidates
  resolve_candidates-keeps scope family [] s h = h
  resolve_candidates-keeps scope family (c ∷ cs) s h =
      after_ok-keeps P
        (select_if w (resolves_v4 family) "ipv4" scope (filter_candidates_by_family (c ∷ cs) 4) s) _
        _
        (select_if-keeps (resolves_v4 family) "ipv4" scope (filter_candidates_by_family (c ∷ cs) 4)
          s h)
        (λ v4 t p.
          after_ok-keeps P
            (select_if w (resolves_v6 family) "ipv6" scope (filter_candidates_by_family (c ∷ cs) 6)
              t)
            _ _
            (select_if-keeps (resolves_v6 family) "ipv6" scope
              (filter_candidates_by_family (c ∷ cs) 6) t p)
            (λ _ u q. q) (λ _ u q. q))
        (λ _ t p. p)

  pub resolve_target_hops-keeps :
      (text : NetipText) (group family : String) (target : TargetConfig)
      → Keeps P (resolve_target_hops w text group family target)
  unfolding resolve_target_hops
  resolve_target_hops-keeps text group family target =
      resolve_candidates-keeps (group <> ".target") family (gateways_from_target text target)

  pub resolve_default_hops-keeps :
      (text : NetipText) (group family : String) (next : Option NextHopConfig)
      → Keeps P (resolve_default_hops w text group family next)
  unfolding resolve_default_hops
  resolve_default_hops-keeps text group family none s h = h
  resolve_default_hops-keeps text group family (some next) s h =
      resolve_candidates-keeps (group <> ".default") family (gateways_from_next_hop text next) s h
