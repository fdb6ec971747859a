-- ===== src/Reconcile/Routes/Refused.antt =====
-- Apply of internal/reconcile/routes/routes.go on the kernel of internal/rtnl/netlink_unsupported.go.
use route_sync.Base.{◌≡◌, refl, ◌∙◌, Bool, true, false, List, [], ◌∷◌, if◌then◌else◌}
use route_sync.Base.Result.{Result, ok, err}
use route_sync.Netip.Text.{NetipText}
use route_sync.Rtnl.Unsupported.{unsupported, unsupported_kernel}
use route_sync.Planner.{GroupPlan}
use route_sync.Reconcile.Routes.{apply}
use route_sync.Reconcile.Routes.Commands.{
  Command, add, delete, perform_all, commands, apply-perform_all,
}

abbrev pub is_empty : {A : Type 0} → List A → Bool
is_empty [] = true
is_empty (x ∷ xs) = false

abbrev refused : Bool → Result (Unit {0})
refused b = if b then ok tt else err unsupported

perform_all-refused :
    (S : Type 0) (cs : List Command) (s : S)
    → perform_all (unsupported_kernel S) cs s ≡ (refused (is_empty cs), s)
perform_all-refused S [] s = refl
perform_all-refused S (add r ∷ cs) s = refl
perform_all-refused S (delete r ∷ cs) s = refl

-- On a system without netlink Apply changes nothing, and ends without an error exactly if the plans
-- ask for no call.
pub apply-unsupported_kernel :
    (S : Type 0) (text : NetipText) (plans : List GroupPlan) (s : S)
    → apply (unsupported_kernel S) text plans s
      ≡ (if is_empty (commands text plans) then ok tt else err unsupported, s)
apply-unsupported_kernel S text plans s =
    apply-perform_all (unsupported_kernel S) text plans s
    ∙ perform_all-refused S (commands text plans) s
