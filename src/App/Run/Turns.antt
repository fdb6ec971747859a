-- ===== src/App/Run/Turns.antt =====
-- The loop of runDaemon of internal/app/app.go as steps: its channels fill at any time, and `select`
-- takes any that is ready.
pub mod Runs
pub mod Ending
use route_sync.Base.{ℕ, suc, ◌≡◌, Bool, true, false, ◌&&◌, List, [], ◌∷◌, ◌++◌}
use route_sync.Config.{Config}
use route_sync.Signals.{Signal, Set, arrive, notify}
use route_sync.App.World.{World, AppState}
use route_sync.App.Run.{
  Options, Event, refresh_tick, health_tick, reload, stop, DaemonState, run, handle,
}

-- The daemon and its channels: the signals, and whether a tick waits in each ticker's channel, which
-- holds one.
pub record Turn (O : Type 0) : Type 0 where
  pub daemon : DaemonState O
  pub signals : Set
  pub refresh : Bool
  pub health : Bool

module _ (w : World) (o : Options) where
  -- Labelled with what the loop takes. The tickers that a reload resets may drop the tick that
  -- waits, or keep it.
  pub data Step : Turn w.kernel.State → List Event → Turn w.kernel.State → Type 0 where
    signalled :
        (s : Signal) (t : Turn w.kernel.State)
        → Step t [] (record t { signals = arrive s t.signals })
    refresh_due : (t : Turn w.kernel.State) → Step t [] (record t { refresh = true })
    health_due : (t : Turn w.kernel.State) → Step t [] (record t { health = true })
    take_refresh :
        (t : Turn w.kernel.State)
        → t.daemon.stopped ≡ false
        → t.refresh ≡ true
        → Step t
            (refresh_tick ∷ [])
            (record t { daemon = handle w o refresh_tick t.daemon; refresh = false })
    take_health :
        (t : Turn w.kernel.State)
        → t.daemon.stopped ≡ false
        → t.health ≡ true
        → Step t
            (health_tick ∷ [])
            (record t { daemon = handle w o health_tick t.daemon; health = false })
    take_reload :
        (t : Turn w.kernel.State) (n : ℕ) (kept : Bool)
        → t.daemon.stopped ≡ false
        → t.signals.reload ≡ suc n
        → Step t (reload ∷ []) (record {
          daemon = handle w o reload t.daemon;
          signals = record { done = t.signals.done; reload = n };
          refresh = kept && t.refresh;
          health = kept && t.health;
        })
    take_stop :
        (t : Turn w.kernel.State)
        → t.daemon.stopped ≡ false
        → t.signals.done ≡ true
        → Step t (stop ∷ []) (record t { daemon = handle w o stop t.daemon })

  -- A run, with all that the loop takes
  pub data Run (t : Turn w.kernel.State) : List Event → Turn w.kernel.State → Type 0 where
    here : Run t [] t
    next :
        {es l : List Event} {u v : Turn w.kernel.State}
        → Run t es u
        → Step u l v
        → Run t (es ++ l) v

  -- runDaemon when it comes to the loop
  unfoldable pub first_turn : Config → Bool → AppState w.kernel.State → Turn w.kernel.State
  unfolding run notify
  first_turn cfg parent_done s = record {
    daemon = record { active = cfg; app = run w o cfg s; stopped = false };
    signals = notify parent_done;
    refresh = false;
    health = false;
  }
