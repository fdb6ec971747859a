-- ===== src/Health/Bounds.antt =====
-- The range of the metrics of Select of internal/health/health.go.
use route_sync.Base.{
  ℕ, suc, ◌+◌, ◌*◌, ◌≤◌, ◌≡◌, refl, ◌∙◌, sym, ap, String, Bool, true, List, [], ◌∷◌, arith, length,
  count, All, All-map,
}
use route_sync.Base.Int.{pos_part}
use route_sync.Base.Result.{ok}
use route_sync.Health.{
  Candidate, ResolvedHop, Probe, has_healthy, order_items, metric_at, number_items, select,
  metric_base, metric_step, unhealthy_metric_offset,
}
use route_sync.Health.Order.{select-eq-ok, count-select}

metrics_within :
    (a : Bool) (i : ℕ) (hs : List ResolvedHop)
    → All
        (λ (g : ResolvedHop).
          (100 ≤ pos_part g.metric) × (pos_part g.metric + 10 ≤ 1100 + (i + length hs) * 10))
        (number_items a i hs)
unfolding number_items metric_at
metrics_within a i [] = tt
metrics_within a i (h ∷ hs) =
    (ground arith, All-map (λ x e. omega (arith, e)) _ (metrics_within a (suc i) hs))

length-number_items :
    (a : Bool) (i : ℕ) (hs : List ResolvedHop) → length (number_items a i hs) ≡ length hs
unfolding number_items
length-number_items a i [] = refl
length-number_items a i (h ∷ hs) = omega (arith, length-number_items a (suc i) hs)

count_every : {A : Type 0} (xs : List A) → count (λ x. true) xs ≡ length xs
count_every [] = refl
count_every (x ∷ xs) = omega (arith, count_every xs)

-- When Select succeeds, it returns a hop for each candidate, and each of their metrics is at least
-- 100 and at most 1090 plus ten times the number of candidates.
pub select-metrics :
    {S : Type 0} (w : Probe S) (family scope : String) (cs : List Candidate) (s t : S)
    (out : List ResolvedHop)
    → select w family scope cs s ≡ (ok out, t)
    → (length out ≡ length cs)
      × All
          (λ (g : ResolvedHop).
            (metric_base ≤ pos_part g.metric)
            × (pos_part g.metric + metric_step
                ≤ metric_base + unhealthy_metric_offset + length cs * metric_step))
          out
select-metrics w family scope cs s t out h =
    let (items, _, _, e) = select-eq-ok w family scope cs s t out h in
    let every = count-select w family scope (λ dev on_link via. true) cs s t out h in
    let same : length out ≡ length cs = sym (count_every out) ∙ every ∙ count_every cs in
    let listed : length (order_items items) ≡ length cs =
      sym (length-number_items (has_healthy items) 0 (order_items items))
      ∙ ap length (sym e)
      ∙ same in
    (
      same,
      rw e (
          All-map (λ x k. omega (arith, k, listed)) _
            (metrics_within (has_healthy items) 0 (order_items items))),
    )
