-- ===== src/Health/Order.antt =====
-- The order and the metrics of the gateways in Select of internal/health/health.go.
use route_sync.Base.{
  ℕ, suc, ◌+◌, ◌*◌, ◌≤◌, ◌<◌, ◌≡◌, refl, ◌∙◌, sym, String, Bool, true, false, not, ◌&&◌, List, [],
  ◌∷◌, ◌++◌, arith, keep, All, All-map, count, count-append, Bool-cases, inl, inr,
}
use route_sync.Base.Int.{pos_part}
use route_sync.Base.Result.{ok, after_ok-eq-ok, value_of_eq}
use route_sync.Netip.{Addr}
use route_sync.Health.{
  Candidate, ResolvedHop, Probe, resolve_items, has_healthy, order_items, metric_at, number_items,
  select,
}

-- No healthy hop stands behind an unhealthy one.
abbrev pub HealthyFirst : List ResolvedHop → Type 0
HealthyFirst [] = Unit
HealthyFirst (h ∷ hs) =
    (h.healthy ≡ false → All (λ (g : ResolvedHop). g.healthy ≡ false) hs) × HealthyFirst hs

-- Each hop has a lower metric than all behind it, so that the kernel prefers it.
abbrev pub IsIncreasing : List ResolvedHop → Type 0
IsIncreasing [] = Unit
IsIncreasing (h ∷ hs) =
    All (λ (g : ResolvedHop). pos_part h.metric < pos_part g.metric) hs × IsIncreasing hs

All-keep :
    (q : ResolvedHop → Bool) (hs : List ResolvedHop)
    → All (λ (g : ResolvedHop). q g ≡ true) (keep q hs)
All-keep q [] = tt
All-keep q (h ∷ hs) = ground (arith, All-keep q hs)

HealthyFirst-append :
    (xs ys : List ResolvedHop)
    → All (λ (g : ResolvedHop). g.healthy ≡ true) xs
    → All (λ (g : ResolvedHop). g.healthy ≡ false) ys
    → HealthyFirst (xs ++ ys)
HealthyFirst-append (x ∷ xs) ys (hx, hxs) hy = (λ e. cc, HealthyFirst-append xs ys hxs hy)
HealthyFirst-append [] [] hx hy = tt
HealthyFirst-append [] (y ∷ ys) hx (e, hy) = (λ _. hy, HealthyFirst-append [] ys tt hy)

none_healthy :
    (hs : List ResolvedHop)
    → has_healthy hs ≡ false
    → All (λ (g : ResolvedHop). g.healthy ≡ false) hs
unfolding has_healthy
none_healthy [] e = tt
none_healthy (h ∷ hs) e = (ground arith, none_healthy hs (ground arith))

order_items-HealthyFirst : (items : List ResolvedHop) → HealthyFirst (order_items items)
unfolding order_items
order_items-HealthyFirst items = elim (Bool-cases (has_healthy items)) [
  | inl some_healthy ↦ rw some_healthy (
      HealthyFirst-append _ _ (All-keep (λ h. h.healthy) items)
        (All-map (λ g e. ground arith) _ (All-keep (λ h. not h.healthy) items)))
  | inr none ↦ rw none (HealthyFirst-append [] items tt (none_healthy items none))
]

-- Numbering keeps the health of every hop.
number_items-unhealthy :
    (a : Bool) (i : ℕ) (hs : List ResolvedHop)
    → All (λ (g : ResolvedHop). g.healthy ≡ false) hs
    → All (λ (g : ResolvedHop). g.healthy ≡ false) (number_items a i hs)
unfolding number_items
number_items-unhealthy a i [] h = tt
number_items-unhealthy a i (g ∷ gs) (e, h) = (e, number_items-unhealthy a (suc i) gs h)

number_items-HealthyFirst :
    (a : Bool) (i : ℕ) (hs : List ResolvedHop)
    → HealthyFirst hs
    → HealthyFirst (number_items a i hs)
unfolding number_items
number_items-HealthyFirst a i [] h = tt
number_items-HealthyFirst a i (g ∷ gs) (e, h) =
    (λ u. number_items-unhealthy a (suc i) gs (e u), number_items-HealthyFirst a (suc i) gs h)

-- The metrics from place i on.
metrics_from :
    (a : Bool) (i : ℕ) (hs : List ResolvedHop)
    → All (λ (g : ResolvedHop). 100 + i * 10 ≤ pos_part g.metric) (number_items a i hs)
unfolding number_items metric_at
metrics_from a i [] = tt
metrics_from a i (g ∷ gs) =
    (ground arith, All-map (λ x e. omega arith) _ (metrics_from a (suc i) gs))

unhealthy_metrics_from :
    (i : ℕ) (hs : List ResolvedHop)
    → All (λ (g : ResolvedHop). g.healthy ≡ false) hs
    → All (λ (g : ResolvedHop). 1100 + i * 10 ≤ pos_part g.metric) (number_items true i hs)
unfolding number_items metric_at
unhealthy_metrics_from i [] h = tt
unhealthy_metrics_from i (g ∷ gs) (e, h) =
    (ground arith, All-map (λ x e. omega arith) _ (unhealthy_metrics_from (suc i) gs h))

metric_at-plain : (a b : Bool) (i : ℕ) → (a && not b) ≡ false → metric_at a i b ≡ 100 + i * 10
unfolding metric_at
metric_at-plain a b i h = ground arith

metric_at-offset : (a b : Bool) (i : ℕ) → (a && not b) ≡ true → metric_at a i b ≡ 1100 + i * 10
unfolding metric_at
metric_at-offset a b i h = ground arith

-- The hop in place i has a lower metric than those behind it.
metric_at-lt :
    (a : Bool) (i : ℕ) (g : ResolvedHop) (gs : List ResolvedHop)
    → (g.healthy ≡ false → All (λ (x : ResolvedHop). x.healthy ≡ false) gs)
    → All
        (λ (x : ResolvedHop). metric_at a i g.healthy < pos_part x.metric)
        (number_items a (suc i) gs)
metric_at-lt false i g gs e =
    All-map (λ x b. omega (arith, metric_at-plain false g.healthy i refl)) _
      (metrics_from false (suc i) gs)
metric_at-lt true i g gs e = elim (Bool-cases g.healthy) [
  | inl up ↦
      All-map (λ x b. omega (arith, metric_at-plain true g.healthy i (ground arith))) _
        (metrics_from true (suc i) gs)
  | inr down ↦
      All-map (λ x b. omega (arith, metric_at-offset true g.healthy i (ground arith))) _
        (unhealthy_metrics_from (suc i) gs (e down))
]

number_items-IsIncreasing :
    (a : Bool) (i : ℕ) (hs : List ResolvedHop)
    → HealthyFirst hs
    → IsIncreasing (number_items a i hs)
unfolding number_items
number_items-IsIncreasing a i [] h = tt
number_items-IsIncreasing a i (g ∷ gs) (e, h) =
    (metric_at-lt a i g gs e, number_items-IsIncreasing a (suc i) gs h)

-- A test that reads what Select copies from a candidate.
abbrev pub of_hop : (String → Bool → Addr → Bool) → ResolvedHop → Bool
of_hop f h = f h.dev h.on_link h.via

abbrev pub of_candidate : (String → Bool → Addr → Bool) → Candidate → Bool
of_candidate f c = f c.dev c.on_link c.via

module _ (f : String → Bool → Addr → Bool) where
  count-number_items :
      (a : Bool) (i : ℕ) (hs : List ResolvedHop)
      → count (of_hop f) (number_items a i hs) ≡ count (of_hop f) hs
  unfolding number_items
  count-number_items a i [] = refl
  count-number_items a i (h ∷ hs) = ground (arith, count-number_items a (suc i) hs)

  count-split :
      (hs : List ResolvedHop)
      → count (of_hop f) (keep (λ h. h.healthy) hs)
          + count (of_hop f) (keep (λ h. not h.healthy) hs)
        ≡ count (of_hop f) hs
  count-split [] = omega arith
  count-split (h ∷ hs) = ground (arith, count-split hs)

  count-order_items :
      (hs : List ResolvedHop) → count (of_hop f) (order_items hs) ≡ count (of_hop f) hs
  unfolding order_items
  count-order_items hs = ground (
    arith,
    count-append (of_hop f) (keep (λ h. h.healthy) hs) (keep (λ h. not h.healthy) hs),
    count-split hs,
  )

module _ {S : Type 0} (w : Probe S) (family scope : String) where
  count-resolve_items :
      (f : String → Bool → Addr → Bool) (i : ℕ) (cs : List Candidate) (s t : S)
      (items : List ResolvedHop)
      → resolve_items w family scope i cs s ≡ (ok items, t)
      → count (of_hop f) items ≡ count (of_candidate f) cs
  unfolding resolve_items
  count-resolve_items f i [] s t items h = rw (← value_of_eq h)
  count-resolve_items f i (c ∷ cs) s t items h =
      let (link, s₁, _, h₁) = after_ok-eq-ok (w.link_index_by_name c.dev s) _ h in
      let (hops, s₂, e₂, h₂) = after_ok-eq-ok (resolve_items w family scope (suc i) cs _) _ h₁ in
      rw (← value_of_eq h₂) (ground (arith, count-resolve_items f (suc i) cs _ s₂ hops e₂))

  -- A successful Select returns the items of the first loop, ordered and numbered.
  pub select-eq-ok :
      (cs : List Candidate) (s t : S) (out : List ResolvedHop)
      → select w family scope cs s ≡ (ok out, t)
      → (items : List ResolvedHop) × (u : S) × (resolve_items w family scope 0 cs s ≡ (ok items, u))
        × (out ≡ number_items (has_healthy items) 0 (order_items items))
  unfolding select
  select-eq-ok [] s t out h = ([], s, refl, sym (value_of_eq h))
  select-eq-ok (c ∷ cs) s t out h =
      let (items, u, e, k) = after_ok-eq-ok (resolve_items w family scope 0 (c ∷ cs) s) _ h in
      (items, u, e, sym (value_of_eq k))

  -- When Select succeeds, no healthy hop of its result stands behind an unhealthy one, and the
  -- metrics rise along the result, so that a healthy hop is preferred to every unhealthy one.
  pub select_order :
      (cs : List Candidate) (s t : S) (out : List ResolvedHop)
      → select w family scope cs s ≡ (ok out, t)
      → HealthyFirst out × IsIncreasing out
  select_order cs s t out h =
      let (items, _, _, e) = select-eq-ok cs s t out h in
      let first = order_items-HealthyFirst items in
      rw e (number_items-HealthyFirst _ 0 _ first, number_items-IsIncreasing _ 0 _ first)

  -- When Select succeeds, every gateway is in its result as often as among the candidates, by its
  -- device, its onlink flag and its address.
  pub count-select :
      (f : String → Bool → Addr → Bool) (cs : List Candidate) (s t : S) (out : List ResolvedHop)
      → select w family scope cs s ≡ (ok out, t)
      → count (of_hop f) out ≡ count (of_candidate f) cs
  count-select f cs s t out h =
      let (items, u, resolved, e) = select-eq-ok cs s t out h in
      rw e (
        count-number_items f _ 0 (order_items items)
        ∙ count-order_items f items
        ∙ count-resolve_items f 0 cs s u items resolved)
