-- ===== src/App/Run/Reads.antt =====
-- The steps of BuildPlan of internal/app/app.go that read the machine or use the state store.
use route_sync.Base.{String, Bool, true, false, not, List, [], str_eq, if◌then◌else◌}
use route_sync.Base.Int.{ℤ, pos, add_int, mul_int}
use route_sync.Base.Result.{Result, ok, err, after_ok, after_ok-keeps}
use route_sync.Netip.{Addr, Prefix}
use route_sync.Config.{TargetConfig, RouteGroup, Config}
use route_sync.Base.Text.Fields.{IsFree}
use route_sync.Metrics.Lines.{is_newline}
use route_sync.Metrics
use route_sync.Metrics.{Registry}
use route_sync.Rtnl.{Rule}
use route_sync.State.{path, save_group, load_group}
use route_sync.Source.Normalize.{normalize}
use route_sync.Reconcile.Routes.{list_if, append_lists, lists_v4, lists_v6}
use route_sync.Reconcile.Routes
use route_sync.Reconcile.Rules
use route_sync.Source.Sorting.{filter_family}
use route_sync.App.Locals.{
  exclusion_inputs, parse_excluded, local_non_private_prefixes, prefix_addrs,
}
use route_sync.App.World.{World, AppState, lift, record_metric, probe}
use route_sync.App.Candidates.Keeps.{Keeps, ProbeKeeps}
use route_sync.App.Stays.{
  Stays, Out, list_if-Stays, append_lists-Stays, lift-Stays, pure-Stays, in_context-Stays, if-Stays,
}
use route_sync.App.Plan.{fetch_source, fetch_or_load, save_fetched, link_index_of}

-- The calls that read the machine, and those of the state store, keep P.
pub record ReadsKeep (w : World) (P : w.kernel.State → Type 0) : Type 0 where
  pub links : (name : String) → Keeps P (w.kernel.link_index_by_name name)
  pub pings : (dev : String) (a : Addr) (timeout : ℤ) → Keeps P (w.ping dev a timeout)
  pub ripe : (country : String) (timeout : ℤ) → Keeps P (w.fetch_ripe country timeout)
  pub txt : (url : String) (timeout : ℤ) → Keeps P (w.fetch_txt url timeout)
  pub addrs : Keeps P w.interface_addrs
  pub routes : (table family protocol : ℤ) → Keeps P (w.kernel.list_routes table family protocol)
  pub rules : (family : ℤ) → Keeps P (w.kernel.list_rules family)
  pub mkdirs : (dir : String) → Keeps P (w.files.mkdir_all dir)
  pub reads : (name : String) → Keeps P (w.files.read_file name)
  pub writes : (name bytes : String) → Keeps P (w.files.write_file name bytes)

-- What the steps of BuildPlan do to the registry keeps R.
pub record MetricsKeep (R : Registry → Type 0) : Type 0 where
  pub fetched : (r : Registry) → R r → R (Metrics.inc "source_fetch_success_total" r)
  pub failed : (r : Registry) → R r → R (Metrics.inc "source_fetch_failure_total" r)
  pub gauges :
      (name : String) (v : ℤ) (r : Registry)
      → IsFree is_newline name
      → R r
      → R (Metrics.set name v r)

module _ (w : World) (P : w.kernel.State → Type 0) (R : Registry → Type 0) (k : ReadsKeep w P)
    (m : MetricsKeep R) where
  pub probe_keeps : ProbeKeeps (Out P R) (probe w)
  probe_keeps = record {
    links = λ name s p. (k.links name s.outside p.0, p.1);
    pings = λ dev a timeout s p. (k.pings dev a timeout s.outside p.0, p.1);
    gauges = λ name v s h p. (p.0, m.gauges name v s.registry h p.1);
  }

  pub owned_routes-Stays :
      (table protocol : ℤ) (family : String)
      → Stays P (Routes.current_owned w.kernel table protocol family)
  unfolding Routes.current_owned
  owned_routes-Stays table protocol family =
      append_lists-Stays P (list_if (lists_v4 family) (w.kernel.list_routes table (pos 4) protocol))
        (list_if (lists_v6 family) (w.kernel.list_routes table (pos 6) protocol))
        (list_if-Stays P (lists_v4 family) _ (record { at = k.routes table (pos 4) protocol }))
        (list_if-Stays P (lists_v6 family) _ (record { at = k.routes table (pos 6) protocol }))

  pub family_rules-Stays :
      (test : Rule → Bool) (f : ℤ) → Stays P (Rules.owned_rules w.kernel test f)
  unfolding Rules.owned_rules
  family_rules-Stays test f = record {
    at = λ s p.
        after_ok-keeps P (w.kernel.list_rules f s) _ _ (k.rules f s p) (λ _ t q. q) (λ _ t q. q);
  }

  pub owned_rules-Stays :
      (table priority base step : ℤ) (family : String)
      → Stays P (Rules.current_owned w.kernel table priority base step family)
  unfolding Rules.current_owned
  owned_rules-Stays table priority base step family =
      let test = Rules.owns table priority base (add_int base (mul_int step (pos 1000))) in
      append_lists-Stays P (list_if (lists_v4 family) (Rules.owned_rules w.kernel test (pos 4)))
        (list_if (lists_v6 family) (Rules.owned_rules w.kernel test (pos 6)))
        (list_if-Stays P (lists_v4 family) _ (family_rules-Stays test (pos 4)))
        (list_if-Stays P (lists_v6 family) _ (family_rules-Stays test (pos 6)))

  pub fetch_source-Stays : (g : RouteGroup) (cfg : Config) → Stays (Out P R) (fetch_source w g cfg)
  unfolding fetch_source
  fetch_source-Stays g cfg =
      if-Stays P R (str_eq g.source.source_type "ripe_country") _ _
        (lift-Stays P R _ (record { at = k.ripe g.source.country cfg.global.http_timeout }))
        (lift-Stays P R _ (record { at = k.txt g.source.url cfg.global.http_timeout }))

  pub load_group-Stays : (dir group : String) → Stays P (load_group w.files w.text dir group)
  unfolding load_group
  load_group-Stays dir group = record {
    at = λ s p.
        after_ok-keeps P (w.files.read_file (path w.files w.text dir group) s) _ _ (k.reads _ s p)
          (λ bytes t q.
            after_ok-keeps P (w.files.unmarshal bytes, t) _ _ q (λ _ _ r. r) (λ _ _ r. r))
          (λ _ t q. q);
  }

  pub save_group-Stays :
      (dir group source_type : String) (ps : List Prefix)
      → Stays P (save_group w.files w.text dir group source_type ps)
  unfolding save_group
  save_group-Stays dir group source_type ps = record {
    at = λ s p.
        after_ok-keeps P (w.files.mkdir_all dir s) _ _ (k.mkdirs dir s p)
          (λ _ t q.
            after_ok-keeps P (w.files.marshal _, t) _ _ q (λ bytes u r. k.writes _ bytes u r)
              (λ _ u r. r))
          (λ _ t q. q);
  }

  pub fetch_or_load-Stays :
      (g : RouteGroup) (cfg : Config) → Stays (Out P R) (fetch_or_load w g cfg)
  unfolding fetch_or_load
  fetch_or_load-Stays g cfg = record {
    at = λ s p.
        after_ok-keeps (Out P R) (fetch_source w g cfg s) _ _ ((fetch_source-Stays g cfg).at s p)
          (λ _ t q. (q.0, m.fetched t.registry q.1))
          (λ e t q.
            after_ok-keeps (Out P R)
              (lift (load_group w.files w.text cfg.global.state_dir g.name)
                (record_metric (Metrics.inc "source_fetch_failure_total") t))
              _ _
              (
                (load_group-Stays cfg.global.state_dir g.name).at t.outside q.0,
                m.failed t.registry q.1,
              )
              (λ _ u r. r) (λ _ u r. r));
  }

  pub save_fetched-Stays :
      (g : RouteGroup) (cfg : Config) (fallback : Bool) (ps : List Prefix)
      → Stays (Out P R) (save_fetched w g cfg fallback ps)
  unfolding save_fetched
  save_fetched-Stays g cfg true ps = record { at = λ s p. p }
  save_fetched-Stays g cfg false ps = record {
    at = λ s p.
        after_ok-keeps (Out P R)
          (lift (save_group w.files w.text cfg.global.state_dir g.name g.source.source_type ps) s) _
          _
          (
            (save_group-Stays cfg.global.state_dir g.name g.source.source_type ps).at s.outside p.0,
            p.1,
          )
          (λ _ t q. q) (λ _ t q. q);
  }

  pub link_index_of-Stays : (context dev : String) → Stays (Out P R) (link_index_of w context dev)
  unfolding link_index_of
  link_index_of-Stays context dev =
      if-Stays P R (str_eq dev "") _ _ (pure-Stays P R (pos 0))
        (in_context-Stays P R context _ (lift-Stays P R _ (record { at = k.links dev })))

  pub exclusion_inputs-Stays :
      (t : TargetConfig) → Stays (Out P R) (exclusion_inputs w.text (lift w.interface_addrs) t)
  unfolding exclusion_inputs
  exclusion_inputs-Stays t = record {
    at = λ s p. at_parsed s p (parse_excluded w.text t.exclude_prefixes) t.exclude_local_ips;
  }
    where
      at_parsed :
          (s : AppState w.kernel.State)
          → Out P R s
          → (r : Result (List Prefix)) (b : Bool)
          → Out P R
              (elim r as (λ _. Result (List Prefix × List Addr) × AppState w.kernel.State) [
                | err e ↦ (err e, s)
                | ok parsed ↦
                    let throws = normalize (filter_family parsed t.family) false in
                    if not b
                    then (ok (throws, []), s)
                    else after_ok
                        (lift w.interface_addrs s)
                        (λ addrs u. (
                          ok (
                            throws,
                            prefix_addrs
                                (filter_family (local_non_private_prefixes w.text addrs) t.family),
                          ),
                          u,
                        ))
                        (λ e u. (err e, u))
              ]).1
      at_parsed s p (err e) b = p
      at_parsed s p (ok parsed) false = p
      at_parsed s p (ok parsed) true =
          after_ok-keeps (Out P R) (lift w.interface_addrs s) _ _ (k.addrs s.outside p.0, p.1)
            (λ _ u q. q) (λ _ u q. q)
