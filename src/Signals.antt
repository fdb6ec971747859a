-- ===== src/Signals.antt =====
-- internal/signals/signals.go: what Notify registers, and what the signals do to it.
use route_sync.Base.{ℕ, suc, Bool, true, ltb, if◌then◌else◌}

pub data Signal : Type 0 where
  sigint sigterm sighup other : Signal

-- Set: whether `Context` is done, and how many signals wait in `Reload`.
pub record Set : Type 0 where
  pub done : Bool
  pub reload : ℕ

-- The capacity of `Reload`.
abbrev pub reload_capacity : ℕ
reload_capacity = 1

-- Notify, under a parent that is done or not
unfoldable pub notify : Bool → Set
notify parent_done = record { done = parent_done; reload = 0 }

-- A signal arrives: os/signal does not wait for room in a channel.
unfoldable pub arrive : Signal → Set → Set
arrive sigint s = record s { done = true }
arrive sigterm s = record s { done = true }
arrive sighup s = record s {
  reload = if ltb s.reload reload_capacity then suc s.reload else s.reload;
}
arrive other s = s
