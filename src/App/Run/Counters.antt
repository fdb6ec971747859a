-- ===== src/App/Run/Counters.antt =====
-- The counters of reconcileOnce and cleanupOwned of internal/app/app.go.
use route_sync.Base.{
  ℕ, ◌+◌, ◌≡◌, refl, String, Bool, true, false, not, ◌&&◌, List, once, str_eq, str_eq_iff, arith,
  if◌then◌else◌,
}
use route_sync.Base.Result.{Result, ok, err}
use route_sync.Config.{Config}
use route_sync.Metrics
use route_sync.Metrics.{Registry, counter, counter-inc}
use route_sync.Planner.{GroupPlan}
use route_sync.Reconcile.Routes
use route_sync.Reconcile.Rules
use route_sync.App.World.{World, AppState, ◌>>=◌, pure, lift, record_metric}
use route_sync.App.Plan.{App, build_plan, build_cleanup_plan}
use route_sync.App.Run.{reconcile_once, cleanup_owned, counting_errors, apply_plan}
use route_sync.App.Run.Reads.{ReadsKeep, MetricsKeep}
use route_sync.App.Run.Building.{build_plan-Stays, build_cleanup_plan-Stays}

abbrev pub is_err : {A : Type 0} → Result A → Bool
is_err (ok a) = false
is_err (err e) = true

-- The two counters have the values a and b.
abbrev Shows : String → String → ℕ → ℕ → Registry → Type 0
Shows failed done a b r = (counter failed r ≡ a) × (counter done r ≡ b)

abbrev pub AnyState : {S : Type 0} → S → Type 0
AnyState s = Unit {0}

pub any_reads : (w : World) → ReadsKeep w AnyState
any_reads w = record {
  links = λ name s h. tt;
  pings = λ dev a timeout s h. tt;
  ripe = λ country timeout s h. tt;
  txt = λ url timeout s h. tt;
  addrs = λ s h. tt;
  routes = λ table family protocol s h. tt;
  rules = λ family s h. tt;
  mkdirs = λ dir s h. tt;
  reads = λ name s h. tt;
  writes = λ name bytes s h. tt;
}

-- Counters other than those of the fetches.
abbrev not_of_fetches : String → Bool
not_of_fetches name =
    not (str_eq "source_fetch_success_total" name) && not (str_eq "source_fetch_failure_total" name)

Shows-keep :
    (failed done : String) (a b : ℕ)
    → not_of_fetches failed ≡ true
    → not_of_fetches done ≡ true
    → MetricsKeep (Shows failed done a b)
unfolding Metrics.set
Shows-keep failed done a b hf hd = record {
  fetched = λ r h. ground (
    arith,
    h,
    counter-inc "source_fetch_success_total" failed r,
    counter-inc "source_fetch_success_total" done r,
  );
  failed = λ r h. ground (
    arith,
    h,
    counter-inc "source_fetch_failure_total" failed r,
    counter-inc "source_fetch_failure_total" done r,
  );
  gauges = λ name v r free h. h;
}

module _ (w : World) (failed done : String) (apart : str_eq failed done ≡ false) (a b : ℕ) where
  -- An error has counted on the first counter, and a success, unless dry, on the second.
  abbrev Counted : Bool → Result (Unit {0}) × AppState w.kernel.State → Type 0
  Counted dry (r, t) =
      (counter failed t.registry ≡ a + once (is_err r))
      × (counter done t.registry ≡ b + once (not (is_err r) && not dry))

  abbrev Now : AppState w.kernel.State → Type 0
  Now s = Shows failed done a b s.registry

  Counted-step :
      {A : Type 0} (dry : Bool) (m : App w A) (f : A → App w (Unit {0}))
      (s : AppState w.kernel.State)
      → Now (m s).1
      → ((x : A) (t : AppState w.kernel.State) → Now t → Counted dry (f x t))
      → Counted dry ((counting_errors w failed m >>= f) s)
  Counted-step {A} dry m f s h next = from (m s) h
    where
      from :
          (x : Result A × AppState w.kernel.State)
          → Now x.1
          → Counted dry ((counting_errors w failed (λ u. x) >>= f) s)
      from (ok y, t) k = next y t k
      from (err e, t) k = ground (
        arith,
        k,
        counter-inc failed failed t.registry,
        counter-inc failed done t.registry,
        apart,
        (str_eq_iff failed failed).1 refl,
      )

  -- Applying a plan and then what counts the success.
  applied_step :
      (plan : List GroupPlan) (fin : Unit {0} → App w (Unit {0}))
      → ((t : AppState w.kernel.State) → Now t → Counted false (fin tt t))
      → (s : AppState w.kernel.State) → Now s
      → Counted false ((apply_plan w failed plan >>= fin) s)
  unfolding apply_plan
  applied_step plan fin last s h = from (lift (Rules.apply w.kernel plan) s) h
    where
      from :
          (x : Result (Unit {0}) × AppState w.kernel.State)
          → Now x.1
          → Counted false (
              ((counting_errors w failed (λ u. x) >>= λ _.
              counting_errors w failed (lift (Routes.apply w.kernel w.text plan)))
                  >>= fin)
                s)
      from (ok y, t) k =
          Counted-step false (lift (Routes.apply w.kernel w.text plan)) fin t k (λ z u j. last u j)
      from (err e, t) k = ground (
        arith,
        k,
        counter-inc failed failed t.registry,
        counter-inc failed done t.registry,
        apart,
        (str_eq_iff failed failed).1 refl,
      )

  Counted-run :
      (dry : Bool) (m : App w (List GroupPlan)) (fin : App w (Unit {0}))
      → ((t : AppState w.kernel.State) → Now t → Counted false (fin t))
      → (s : AppState w.kernel.State) → Now (m s).1
      → Counted dry (
          (counting_errors w failed m >>= λ plan.
          if dry then pure tt else apply_plan w failed plan >>= λ _. fin)
            s)
  Counted-run true m fin last s h =
      Counted-step true m (λ plan. pure tt) s h (λ plan t k. ground (arith, k))
  Counted-run false m fin last s h =
      Counted-step false m (λ plan. apply_plan w failed plan >>= λ _. fin) s h
        (λ plan t k. applied_step plan (λ _. fin) last t k)

module _ (w : World) (cfg : Config) where
  counter-reconcile_once :
      (dry : Bool) (s : AppState w.kernel.State)
      → (counter "failed_reconcile_total" (reconcile_once w cfg dry s).1.registry
          ≡ counter "failed_reconcile_total" s.registry
            + once (is_err (reconcile_once w cfg dry s).0))
        × (counter "successful_reconcile_total" (reconcile_once w cfg dry s).1.registry
            ≡ counter "successful_reconcile_total" s.registry
              + once (not (is_err (reconcile_once w cfg dry s).0) && not dry))
  unfolding reconcile_once Metrics.set
  counter-reconcile_once dry s =
      let a = counter "failed_reconcile_total" s.registry in
      let b = counter "successful_reconcile_total" s.registry in
      let kept =
        (build_plan-Stays w AnyState
            (Shows "failed_reconcile_total" "successful_reconcile_total" a b) (any_reads w)
            (Shows-keep _ _ a b refl refl) cfg).at
          s (tt, (refl, refl)) in
      Counted-run w "failed_reconcile_total" "successful_reconcile_total" refl a b dry
        (build_plan w cfg)
        (λ t. (
          ok tt,
          record_metric (Metrics.set "last_success_timestamp" (w.unix_now t.outside))
              (record_metric (Metrics.inc "successful_reconcile_total") t),
        ))
        (λ t k. ground (
          arith,
          k,
          counter-inc "successful_reconcile_total" "failed_reconcile_total" t.registry,
          counter-inc "successful_reconcile_total" "successful_reconcile_total" t.registry,
        ))
        s kept.1

  counter-cleanup_owned :
      (dry : Bool) (s : AppState w.kernel.State)
      → (counter "failed_cleanup_total" (cleanup_owned w cfg dry s).1.registry
          ≡ counter "failed_cleanup_total" s.registry + once (is_err (cleanup_owned w cfg dry s).0))
        × (counter "successful_cleanup_total" (cleanup_owned w cfg dry s).1.registry
            ≡ counter "successful_cleanup_total" s.registry
              + once (not (is_err (cleanup_owned w cfg dry s).0) && not dry))
  unfolding cleanup_owned
  counter-cleanup_owned dry s =
      let a = counter "failed_cleanup_total" s.registry in
      let b = counter "successful_cleanup_total" s.registry in
      let kept =
        (build_cleanup_plan-Stays w AnyState
            (Shows "failed_cleanup_total" "successful_cleanup_total" a b) (any_reads w)
            (Shows-keep _ _ a b refl refl) cfg).at
          s (tt, (refl, refl)) in
      Counted-run w "failed_cleanup_total" "successful_cleanup_total" refl a b dry
        (build_cleanup_plan w cfg)
        (λ t. (ok tt, record_metric (Metrics.inc "successful_cleanup_total") t))
        (λ t k. ground (
          arith,
          k,
          counter-inc "successful_cleanup_total" "failed_cleanup_total" t.registry,
          counter-inc "successful_cleanup_total" "successful_cleanup_total" t.registry,
        ))
        s kept.1

  -- A reconciliation that ends with an error adds one to failed_reconcile_total and leaves
  -- successful_reconcile_total as it is; one that ends well and is not dry does the opposite; a dry
  -- one that ends well leaves both. The same holds of a clean-up and its two counters.
  pub counters_of_runs :
      (dry : Bool) (s : AppState w.kernel.State)
      → (counter "failed_reconcile_total" (reconcile_once w cfg dry s).1.registry
          ≡ counter "failed_reconcile_total" s.registry
            + once (is_err (reconcile_once w cfg dry s).0))
        × (counter "successful_reconcile_total" (reconcile_once w cfg dry s).1.registry
            ≡ counter "successful_reconcile_total" s.registry
              + once (not (is_err (reconcile_once w cfg dry s).0) && not dry))
        × (counter "failed_cleanup_total" (cleanup_owned w cfg dry s).1.registry
            ≡ counter "failed_cleanup_total" s.registry
              + once (is_err (cleanup_owned w cfg dry s).0))
        × (counter "successful_cleanup_total" (cleanup_owned w cfg dry s).1.registry
            ≡ counter "successful_cleanup_total" s.registry
              + once (not (is_err (cleanup_owned w cfg dry s).0) && not dry))
  counters_of_runs dry s =
      let (failed, done) = counter-reconcile_once dry s in
      let (failed', done') = counter-cleanup_owned dry s in (failed, done, failed', done')
