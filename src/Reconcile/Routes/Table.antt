-- ===== src/Reconcile/Routes/Table.antt =====
-- A routing table as a list: what the calls of Apply of internal/reconcile/routes/routes.go do to it.
pub mod Applied
pub mod Built
pub mod Exact
pub mod Restricted
pub mod Selected
pub mod Groups
use route_sync.Base.{
  ◌≡◌, refl, sym, ◌∙◌, ap, String, Bool, true, false, not, ◌&&◌, ◌||◌, List, [], ◌∷◌, ◌++◌, map,
  any, any-append, any-keep, any-ext, any-or, any_mono, keep, All, arith, str_eq, str_eq_iff,
  if◌then◌else◌, Bool-cases, inl, inr,
}
use route_sync.Base.Int.{ℤ, eqb_ℤ}
use route_sync.Base.Result.{Result, ok, err, after_ok-eq-ok, state_of_eq}
use route_sync.Netip.Text.{NetipText}
use route_sync.Rtnl.{Route, Kernel}
use route_sync.Rtnl.Netlink.RoundTrip.{anonymous}
use route_sync.Planner.{route_key}
use route_sync.Planner.Diff.{has_key}
use route_sync.Reconcile.Routes.Commands.{Command, add, delete, perform_all}

-- The route of the call passes the test.
abbrev pub of_command : (Route → Bool) → Command → Bool
of_command f (add r) = f r
of_command f (delete r) = f r

module _ (text : NetipText) where
  -- The kernel holds one route of a table, destination and metric.
  abbrev pub same_slot : Route → Route → Bool
  same_slot q r =
      eqb_ℤ q.table r.table
      && eqb_ℤ q.metric r.metric
      && str_eq (text.prefix_string q.dst) (text.prefix_string r.dst)

  abbrev pub same_key : Route → Route → Bool
  same_key r q = str_eq (route_key text r) (route_key text q)

  -- Adding fails with EEXIST, which the program ignores, where the slot is taken. The kernel holds
  -- neither the group nor the device's name.
  unfoldable pub put : Route → List Route → List Route
  put r rs = if any (λ q. same_slot q r) rs then rs else anonymous r ∷ rs

  -- Deleting removes the route that agrees in everything.
  unfoldable pub drop : Route → List Route → List Route
  drop r rs = keep (λ q. not (same_key r q)) rs

  abbrev pub run_command : Command → List Route → List Route
  run_command (add r) rs = put r rs
  run_command (delete r) rs = drop r rs

  abbrev pub run_commands : List Command → List Route → List Route
  run_commands [] rs = rs
  run_commands (c ∷ cs) rs = run_commands cs (run_command c rs)

  -- What the program relies on of a kernel: seen through `view`, successful calls change the table
  -- as netlink documents it. `exact` says which routes the kernel takes as they are given: it fills
  -- in a metric of 0 for IPv6, say, and drops the gateway of a throw route.
  pub record IsTable (k : Kernel) (view : k.State → List Route) : Type 0 where
    pub exact : Route → Bool
    pub added :
        (r : Route) (s t : k.State)
        → exact r ≡ true
        → k.add_route r s ≡ (ok tt, t)
        → view t ≡ put r (view s)
    pub deleted :
        (r : Route) (s t : k.State)
        → exact r ≡ true
        → k.delete_route r s ≡ (ok tt, t)
        → view t ≡ drop r (view s)

  module _ (k : Kernel) (view : k.State → List Route) (table : IsTable k view) where
    -- The kernel changes the route.
    abbrev pub inexact : Route → Bool
    inexact r = not (table.exact r)

    -- Calls that all succeed, with routes that the kernel takes as they are, do to the table what
    -- they do to the list.
    pub perform_all-run_commands :
        (cs : List Command) (s t : k.State)
        → any (of_command inexact) cs ≡ false
        → perform_all k cs s ≡ (ok tt, t)
        → view t ≡ run_commands cs (view s)
    perform_all-run_commands [] s t h e = ap view (sym (state_of_eq e))
    perform_all-run_commands (add r ∷ cs) s t h e =
        let (_, u, e₁, e₂) = after_ok-eq-ok (k.add_route r s) _ e in
        perform_all-run_commands cs u t (ground (arith, h)) e₂
        ∙ ap (run_commands cs) (table.added r s u (ground (arith, h)) e₁)
    perform_all-run_commands (delete r ∷ cs) s t h e =
        let (_, u, e₁, e₂) = after_ok-eq-ok (k.delete_route r s) _ e in
        perform_all-run_commands cs u t (ground (arith, h)) e₂
        ∙ ap (run_commands cs) (table.deleted r s u (ground (arith, h)) e₁)

  run_commands-append :
      (cs ds : List Command) (rs : List Route)
      → run_commands (cs ++ ds) rs ≡ run_commands ds (run_commands cs rs)
  run_commands-append [] ds rs = refl
  run_commands-append (c ∷ cs) ds rs = run_commands-append cs ds (run_command c rs)

  -- Some route of the list has the key of q.
  abbrev pub keyed_in : List Route → Route → Bool
  keyed_in ds q = any (λ r. same_key r q) ds

  -- Deleting, by any test on routes.
  pub any-run_deletes :
      (f : Route → Bool) (ds rs : List Route)
      → any f (run_commands (map delete ds) rs) ≡ any (λ q. not (keyed_in ds q) && f q) rs
  unfolding drop
  any-run_deletes f [] rs = refl
  any-run_deletes f (d ∷ ds) rs =
      any-run_deletes f ds (drop d rs)
      ∙ any-keep _ (λ q. not (same_key d q)) rs
      ∙ any-ext _ _ rs (λ q. ground arith)

  -- No route of the list is in the slot of one behind it.
  abbrev pub IsDistinct : List Route → Type 0
  IsDistinct [] = Unit
  IsDistinct (a ∷ rs) = (any (same_slot a) rs ≡ false) × IsDistinct rs

  -- Adding routes of distinct slots that are all free, by any test that looks at what is held.
  any-run_adds :
      (f : Route → Bool)
      → ((q : Route) → f (anonymous q) ≡ f q)
      → (news rs : List Route) → IsDistinct news
      → any (λ q. any (same_slot q) news) rs ≡ false
      → any f (run_commands (map add news) rs) ≡ (any f news || any f rs)
  unfolding put
  any-run_adds f held [] rs d h = refl
  any-run_adds f held (a ∷ news) rs (fresh, d) h =
      let taken = any-or (λ q. same_slot q a) (λ q. any (same_slot q) news) rs in
      let free : any (λ q. same_slot q a) rs ≡ false = ground (arith, taken, h) in
      let later : any (λ q. any (same_slot q) news) rs ≡ false = ground (arith, taken, h) in
      ap (λ b. any f (run_commands (map add news) (if b then rs else anonymous a ∷ rs))) free
      ∙ any-run_adds f held news (anonymous a ∷ rs) d (ground (arith, fresh, later))
      ∙ ground (arith, held a)
