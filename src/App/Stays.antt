-- ===== src/App/Stays.antt =====
-- Rules for what an action of internal/app/app.go keeps, by the way it is put together.
use route_sync.Base.{String, Bool, true, false, List, ◌++◌, if◌then◌else◌}
use route_sync.Base.Result.{ok, Action, after_ok-keeps}
use route_sync.Reconcile.Routes.{list_if, append_lists}
use route_sync.Metrics.{Registry}
use route_sync.App.World.{AppState, ◌>>=◌, pure, lift, in_context}
use route_sync.App.Candidates.Keeps.{Keeps}

-- `Keeps` under a name of its own, so that the rules below find the action in it.
pub record Stays {S A : Type 0} (P : S → Type 0) (m : Action S A) : Type 0 where
  pub at : Keeps P m

module _ {S : Type 0} (P : S → Type 0) where
  pub list_if-Stays :
      {A : Type 0} (b : Bool) (m : Action S (List A)) → Stays P m → Stays P (list_if b m)
  list_if-Stays true m km = record { at = km.at }
  list_if-Stays false m km = record { at = λ s p. p }

  pub append_lists-Stays :
      {A : Type 0} (m n : Action S (List A)) → Stays P m → Stays P n → Stays P (append_lists m n)
  append_lists-Stays m n km kn = record {
    at = λ s p.
        after_ok-keeps P (m s) _ _ (km.at s p)
          (λ xs t q.
            after_ok-keeps P (n t) (λ ys u. (ok (xs ++ ys), u)) _ (kn.at t q) (λ _ u r. r)
              (λ _ u r. r))
          (λ _ t q. q);
  }

module _ {O : Type 0} (P : O → Type 0) (R : Registry → Type 0) where
  -- P of the machine of an application state, and R of its registry
  abbrev pub Out : AppState O → Type 0
  Out s = P s.outside × R s.registry

  pub lift-Stays : {A : Type 0} (m : Action O A) → Stays P m → Stays Out (lift m)
  lift-Stays m h = record { at = λ s p. (h.at s.outside p.0, p.1) }

  pub bind-Stays :
      {A B : Type 0} (m : Action (AppState O) A) (f : A → Action (AppState O) B)
      → Stays Out m
      → ((a : A) → Stays Out (f a))
      → Stays Out (m >>= f)
  bind-Stays m f km kf = record {
    at = λ s p. after_ok-keeps Out (m s) f _ (km.at s p) (λ a t q. (kf a).at t q) (λ _ t q. q);
  }

  pub pure-Stays : {A : Type 0} (a : A) → Stays Out (pure a)
  pure-Stays a = record { at = λ s p. p }

  pub in_context-Stays :
      {A : Type 0} (c : String) (m : Action (AppState O) A)
      → Stays Out m
      → Stays Out (in_context c m)
  in_context-Stays c m km = record {
    at = λ s p. after_ok-keeps Out (m s) _ _ (km.at s p) (λ _ t q. q) (λ _ t q. q);
  }

  pub if-Stays :
      {A : Type 0} (b : Bool) (m n : Action (AppState O) A)
      → Stays Out m
      → Stays Out n
      → Stays Out (if b then m else n)
  if-Stays true m n km kn = km
  if-Stays false m n km kn = kn
