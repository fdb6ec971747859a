-- ===== src/Health/Answered.antt =====
-- The pings behind the hops of Select of internal/health/health.go.
use route_sync.Base.{
  ℕ, suc, ◌≡◌, refl, String, Bool, true, false, not, Option, none, some, List, [], ◌∷◌, keep, All,
  All-append, Bool-cases, inl, inr, In, members, str_eq, if◌then◌else◌,
}
use route_sync.Base.Int.{ℤ, pos, eqb_ℤ}
use route_sync.Base.Result.{Result, ok, err, after_ok, after_ok-eq-ok, value_of_eq}
use route_sync.Netip.{Addr, zero_addr}
use route_sync.Health.{
  default_ipv4_targets, default_ipv6_targets, Candidate, ResolvedHop, Probe, wrong_family,
  evaluate_targets, evaluate_candidate, resolve_items, has_healthy, order_items, number_items,
  select,
}
use route_sync.Health.Order.{select-eq-ok}

-- The texts that evaluateCandidate tries, and the time it gives each ping.
abbrev pub tried_targets : String → Candidate → List String
tried_targets family c = elim c.health_check.targets [
  | [] ↦ if str_eq family "ipv6" then default_ipv6_targets else default_ipv4_targets
  | t ∷ ts ↦ t ∷ ts
]

abbrev pub ping_timeout : Candidate → ℤ
ping_timeout c =
    if eqb_ℤ c.health_check.timeout (pos 0) then pos 1_000_000_000 else c.health_check.timeout

module _ {S : Type 0} (w : Probe S) (family : String) where
  -- An address of the family that one of the targets parses to has answered a ping over the device
  -- within the timeout, or no address is named.
  abbrev pub Answered : String → ℤ → (String → Type 0) → Bool → Addr → Type 0
  Answered dev timeout Target true a =
      (wrong_family family a ≡ false)
      × ((raw : String) × Target raw × (w.parse_addr raw ≡ some a))
      × ((s : S) × (t : S) × (w.ping dev a timeout s ≡ (ok tt, t)))
  Answered dev timeout Target false a = a ≡ zero_addr

  abbrev OfResult : String → ℤ → (String → Type 0) → (Bool × Addr) × S → Type 0
  OfResult dev timeout Target m = Answered dev timeout Target m.0.0 m.0.1

  evaluate_targets-Answered :
      (dev : String) (timeout : ℤ) (Target : String → Type 0) (targets : List String)
      → All Target targets
      → (s : S) → OfResult dev timeout Target (evaluate_targets w family dev timeout targets s)
  unfolding evaluate_targets
  evaluate_targets-Answered dev timeout Target [] h s = refl
  evaluate_targets-Answered dev timeout Target (raw ∷ rest) (wanted, h) s =
      at_target (w.parse_addr raw) refl (evaluate_targets-Answered dev timeout Target rest h)
    where
      at_ping :
          (a : Addr)
          → w.parse_addr raw ≡ some a
          → wrong_family family a ≡ false
          → (m : Result (Unit {0}) × S) → w.ping dev a timeout s ≡ m
          → ((t : S) → OfResult dev timeout Target (evaluate_targets w family dev timeout rest t))
          → OfResult dev timeout Target (
              after_ok m
                (λ _ t. ((true, a), t))
                (λ _ t. evaluate_targets w family dev timeout rest t))
      at_ping a parsed right (ok tt, t) e ih = (right, (raw, wanted, parsed), (s, t, e))
      at_ping a parsed right (err x, t) e ih = ih t

      at_address :
          (a : Addr)
          → w.parse_addr raw ≡ some a
          → (b : Bool) → wrong_family family a ≡ b
          → ((t : S) → OfResult dev timeout Target (evaluate_targets w family dev timeout rest t))
          → OfResult dev timeout Target (elim b as (λ _. (Bool × Addr) × S) [
            | true ↦ evaluate_targets w family dev timeout rest s
            | false ↦
                after_ok
                  (w.ping dev a timeout s)
                  (λ _ t. ((true, a), t))
                  (λ _ t. evaluate_targets w family dev timeout rest t)
          ])
      at_address a parsed true e ih = ih s
      at_address a parsed false e ih = at_ping a parsed e (w.ping dev a timeout s) refl ih

      at_target :
          (o : Option Addr)
          → w.parse_addr raw ≡ o
          → ((t : S) → OfResult dev timeout Target (evaluate_targets w family dev timeout rest t))
          → OfResult dev timeout Target (elim o as (λ _. (Bool × Addr) × S) [
            | none ↦ evaluate_targets w family dev timeout rest s
            | some addr ↦ elim (wrong_family family addr) as (λ _. (Bool × Addr) × S) [
              | true ↦ evaluate_targets w family dev timeout rest s
              | false ↦
                  after_ok
                    (w.ping dev addr timeout s)
                    (λ _ t. ((true, addr), t))
                    (λ _ t. evaluate_targets w family dev timeout rest t)
            ]
          ])
      at_target none e ih = ih s
      at_target (some a) e ih = at_address a e (wrong_family family a) refl ih

  -- One of the candidates is the hop's, and the hop is healthy only when a target of that candidate
  -- has answered.
  abbrev pub IsAnswered : List Candidate → ResolvedHop → Type 0
  IsAnswered cs h =
      (c : Candidate) × In c cs
      × (c.dev ≡ h.dev)
      × Answered c.dev (ping_timeout c) (λ raw. In raw (tried_targets family c)) h.healthy
          h.checked_via

  resolve_items-IsAnswered :
      (all : List Candidate) (scope : String) (i : ℕ) (cs : List Candidate) (s t : S)
      (items : List ResolvedHop)
      → All (λ c. In c all) cs
      → resolve_items w family scope i cs s ≡ (ok items, t)
      → All (IsAnswered all) items
  unfolding resolve_items evaluate_candidate
  resolve_items-IsAnswered all scope i [] s t items m h = rw (← value_of_eq h) tt
  resolve_items-IsAnswered all scope i (c ∷ cs) s t items (m, ms) h =
      let (link, s₁, _, h₁) = after_ok-eq-ok (w.link_index_by_name c.dev s) _ h in
      let (hops, s₂, e₂, h₂) = after_ok-eq-ok (resolve_items w family scope (suc i) cs _) _ h₁ in
      rw (← value_of_eq h₂) (
        (
          c,
          m,
          refl,
          evaluate_targets-Answered c.dev (ping_timeout c) (λ raw. In raw (tried_targets family c))
              (tried_targets family c) (members (tried_targets family c)) s₁,
        ),
        resolve_items-IsAnswered all scope (suc i) cs _ s₂ hops ms e₂,
      )

  keep-IsAnswered :
      (all : List Candidate) (q : ResolvedHop → Bool) (hs : List ResolvedHop)
      → All (IsAnswered all) hs
      → All (IsAnswered all) (keep q hs)
  keep-IsAnswered all q [] h = tt
  keep-IsAnswered all q (x ∷ xs) (hx, h) = elim (Bool-cases (q x)) [
    | inl e ↦ rw e (hx, keep-IsAnswered all q xs h)
    | inr e ↦ rw e (keep-IsAnswered all q xs h)
  ]

  order_items-IsAnswered :
      (all : List Candidate) (hs : List ResolvedHop)
      → All (IsAnswered all) hs
      → All (IsAnswered all) (order_items hs)
  unfolding order_items
  order_items-IsAnswered all hs h = elim (Bool-cases (has_healthy hs)) [
    | inl e ↦ rw e (
        All-append (IsAnswered all) (keep (λ x. x.healthy) hs) (keep (λ x. not x.healthy) hs)
          (keep-IsAnswered all (λ x. x.healthy) hs h)
          (keep-IsAnswered all (λ x. not x.healthy) hs h))
    | inr e ↦ rw e h
  ]

  number_items-IsAnswered :
      (all : List Candidate) (a : Bool) (i : ℕ) (hs : List ResolvedHop)
      → All (IsAnswered all) hs
      → All (IsAnswered all) (number_items a i hs)
  unfolding number_items
  number_items-IsAnswered all a i [] h = tt
  number_items-IsAnswered all a i (x ∷ xs) (hx, h) =
      (hx, number_items-IsAnswered all a (suc i) xs h)

  -- When Select succeeds, each hop that it returns is for the device of one of the candidates. A hop
  -- that it calls healthy names an address of the family that a target of this candidate (a default
  -- one where it has none) parses to, and a ping of that address over that device, with the
  -- candidate's timeout (a second where it is 0), has succeeded; each other hop names the zero
  -- address.
  pub select-IsAnswered :
      (scope : String) (cs : List Candidate) (s t : S) (out : List ResolvedHop)
      → select w family scope cs s ≡ (ok out, t)
      → All (IsAnswered cs) out
  select-IsAnswered scope cs s t out h =
      let (items, u, e, k) = select-eq-ok w family scope cs s t out h in
      rw k (
        number_items-IsAnswered cs (has_healthy items) 0 (order_items items) (
          order_items-IsAnswered cs items
            (resolve_items-IsAnswered cs scope 0 cs s u items (members cs) e)))
