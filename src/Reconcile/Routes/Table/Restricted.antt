-- ===== src/Reconcile/Routes/Table/Restricted.antt =====
-- The calls of Apply of internal/reconcile/routes/routes.go, seen from one routing table of many.
use route_sync.Base.{
  ◌≡◌, refl, ◌∙◌, ap, Bool, true, false, List, [], ◌∷◌, any, any-keep, any-ext, keep, arith,
  str_eq_iff, Bool-cases, inl, inr,
}
use route_sync.Base.Int.{ℤ, eqb_ℤ, eq_of_eqb_ℤ}
use route_sync.Netip.Text.{NetipText}
use route_sync.Rtnl.{Route}
use route_sync.Planner.Keys.{route_key-table}
use route_sync.Reconcile.Routes.Commands.{Command, add, delete}
use route_sync.Reconcile.Routes.Table.{same_slot, same_key, put, drop, run_commands}

abbrev pub in_table : ℤ → Route → Bool
in_table n r = eqb_ℤ r.table n

-- The call changes a route of the table.
abbrev pub on_table : ℤ → Command → Bool
on_table n (add r) = in_table n r
on_table n (delete r) = in_table n r

module _ (text : NetipText) (n : ℤ) where
  same_key-in_table : (r q : Route) → same_key text r q ≡ true → in_table n r ≡ in_table n q
  same_key-in_table r q h = ap (λ t. eqb_ℤ t n) (route_key-table text r q ((str_eq_iff _ _).0 h))

  keep-drop_other :
      (r : Route) (rs : List Route)
      → in_table n r ≡ false
      → keep (in_table n) (drop text r rs) ≡ keep (in_table n) rs
  unfolding drop
  keep-drop_other r [] h = refl
  keep-drop_other r (q ∷ rs) h = ground (arith, same_key-in_table r q, keep-drop_other r rs h, h)

  keep-drop :
      (r : Route) (rs : List Route)
      → keep (in_table n) (drop text r rs) ≡ drop text r (keep (in_table n) rs)
  unfolding drop
  keep-drop r [] = refl
  keep-drop r (q ∷ rs) = ground (arith, keep-drop r rs)

  slot_in_table :
      (r q : Route) → in_table n r ≡ true → same_slot text q r ≡ true → in_table n q ≡ true
  slot_in_table r q h e = ap (λ t. eqb_ℤ t n) (eq_of_eqb_ℤ q.table r.table (ground (arith, e))) ∙ h

  keep-put :
      (r : Route) (rs : List Route)
      → in_table n r ≡ true
      → keep (in_table n) (put text r rs) ≡ put text r (keep (in_table n) rs)
  unfolding put
  keep-put r rs h =
      let seen : any (λ q. same_slot text q r) (keep (in_table n) rs)
          ≡ any (λ q. same_slot text q r) rs =
        any-keep (λ q. same_slot text q r) (in_table n) rs
        ∙ any-ext _ _ rs (λ q. ground (arith, slot_in_table r q h)) in
      ground (arith, seen, h)

  keep-put_other :
      (r : Route) (rs : List Route)
      → in_table n r ≡ false
      → keep (in_table n) (put text r rs) ≡ keep (in_table n) rs
  unfolding put
  keep-put_other r rs h = ground (arith, h)

  -- What the calls do to the routes of the table, the calls on the table do to them.
  pub keep-run_commands :
      (cs : List Command) (rs : List Route)
      → keep (in_table n) (run_commands text cs rs)
        ≡ run_commands text (keep (on_table n) cs) (keep (in_table n) rs)
  keep-run_commands [] rs = refl
  keep-run_commands (add r ∷ cs) rs = elim (Bool-cases (in_table n r)) [
    | inl h ↦ rw h (
        keep-run_commands cs (put text r rs)
        ∙ ap (run_commands text (keep (on_table n) cs)) (keep-put r rs h))
    | inr h ↦ rw h (
        keep-run_commands cs (put text r rs)
        ∙ ap (run_commands text (keep (on_table n) cs)) (keep-put_other r rs h))
  ]
  keep-run_commands (delete r ∷ cs) rs = elim (Bool-cases (in_table n r)) [
    | inl h ↦ rw h (
        keep-run_commands cs (drop text r rs)
        ∙ ap (run_commands text (keep (on_table n) cs)) (keep-drop r rs))
    | inr h ↦ rw h (
        keep-run_commands cs (drop text r rs)
        ∙ ap (run_commands text (keep (on_table n) cs)) (keep-drop_other r rs h))
  ]
