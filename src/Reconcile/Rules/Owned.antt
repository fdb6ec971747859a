-- ===== src/Reconcile/Rules/Owned.antt =====
-- The rules that CurrentOwned of internal/reconcile/rules/rules.go takes for the program's own.
use route_sync.Base.{
  ◌≡◌, String, Bool, true, false, List, [], ◌∷◌, arith, All, All-append, keep, Bool-cases, inl, inr,
  subst,
}
use route_sync.Base.Int.{ℤ, pos, leb_ℤ, ltb_ℤ, eq_of_eqb_ℤ, add_int, mul_int}
use route_sync.Base.Result.{ok, Action, after_ok-eq-ok, value_of_eq}
use route_sync.Rtnl.{Rule, Kernel}
use route_sync.Reconcile.Routes.{lists_v4, lists_v6, list_if, append_lists}
use route_sync.Reconcile.Rules.{owns, owned_rules, current_owned}

-- A rule of the given table and priority, where the priority lies in the managed band.
abbrev pub IsOwned : ℤ → ℤ → ℤ → ℤ → Rule → Type 0
IsOwned table priority base step r =
    (r.table ≡ table)
    × (r.priority ≡ priority)
    × (leb_ℤ base priority ≡ true)
    × (ltb_ℤ priority (add_int base (mul_int step (pos 1000))) ≡ true)

owns-IsOwned :
    (table priority base step : ℤ) (r : Rule)
    → owns table priority base (add_int base (mul_int step (pos 1000))) r ≡ true
    → IsOwned table priority base step r
unfolding owns
owns-IsOwned table priority base step r h =
    let same : r.priority ≡ priority = eq_of_eqb_ℤ r.priority priority (ground arith) in
    (
      eq_of_eqb_ℤ r.table table (ground arith),
      same,
      subst (λ p. leb_ℤ base p ≡ true) same (ground arith),
      subst (λ p. ltb_ℤ p (add_int base (mul_int step (pos 1000))) ≡ true) same (ground arith),
    )

module _ (P : Rule → Type 0) where
  All-keep :
      (q : Rule → Bool) → ((r : Rule) → q r ≡ true → P r) → (rs : List Rule) → All P (keep q rs)
  All-keep q h [] = tt
  All-keep q h (r ∷ rs) = elim (Bool-cases (q r)) [
    | inl yes_it ↦ rw yes_it (h r yes_it, All-keep q h rs)
    | inr no_it ↦ rw no_it (All-keep q h rs)
  ]

  module _ {S : Type 0} where
    All-list_if :
        (b : Bool) (list : Action S (List Rule))
        → ((s t : S) (rs : List Rule) → list s ≡ (ok rs, t) → All P rs)
        → (s t : S) (rs : List Rule) → list_if b list s ≡ (ok rs, t)
        → All P rs
    All-list_if true list h s t rs e = h s t rs e
    All-list_if false list h s t rs e = subst (All P) (value_of_eq e) tt

    All-append_lists :
        (m n : Action S (List Rule))
        → ((s t : S) (rs : List Rule) → m s ≡ (ok rs, t) → All P rs)
        → ((s t : S) (rs : List Rule) → n s ≡ (ok rs, t) → All P rs)
        → (s t : S) (rs : List Rule) → append_lists m n s ≡ (ok rs, t)
        → All P rs
    All-append_lists m n hm hn s t rs e =
        let (xs, u, em, e') = after_ok-eq-ok (m s) _ e in
        let (ys, v, en, e'') = after_ok-eq-ok (n u) _ e' in
        subst (All P) (value_of_eq e'') (All-append P xs ys (hm s u xs em) (hn u v ys en))

module _ (k : Kernel) where
  All-owned_rules :
      (P : Rule → Type 0) (q : Rule → Bool)
      → ((r : Rule) → q r ≡ true → P r)
      → (family : ℤ) (s t : k.State) (rs : List Rule) → owned_rules k q family s ≡ (ok rs, t)
      → All P rs
  unfolding owned_rules
  All-owned_rules P q h family s t rs e =
      let (xs, u, _, e') = after_ok-eq-ok (k.list_rules family s) _ e in
      subst (All P) (value_of_eq e') (All-keep P q h xs)

  -- Over every kernel: what CurrentOwned lists has the given table and priority, and it lists
  -- something only if that priority lies in the managed band.
  pub current_owned-IsOwned :
      (table priority base step : ℤ) (family : String) (s t : k.State) (rs : List Rule)
      → current_owned k table priority base step family s ≡ (ok rs, t)
      → All (IsOwned table priority base step) rs
  unfolding current_owned
  current_owned-IsOwned table priority base step family s t rs e =
      let test = owns table priority base (add_int base (mul_int step (pos 1000))) in
      let P = IsOwned table priority base step in
      All-append_lists P (list_if (lists_v4 family) (owned_rules k test (pos 4)))
        (list_if (lists_v6 family) (owned_rules k test (pos 6)))
        (All-list_if P (lists_v4 family) _
          (All-owned_rules P test (owns-IsOwned table priority base step) (pos 4)))
        (All-list_if P (lists_v6 family) _
          (All-owned_rules P test (owns-IsOwned table priority base step) (pos 6)))
        s t rs e
