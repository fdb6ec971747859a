-- ===== src/Tests/Turning.antt =====
-- Steps of the daemon's loop on the test machine.
use route_sync.Base.{◌≤◌, ◌≡◌, refl, true, false, [], ◌∷◌, any, ◌⊎◌, inr}
use route_sync.Signals.{sigterm, sighup, arrive}
use route_sync.App.Run.{refresh_tick, stop, handle}
use route_sync.App.Run.Turns.{
  Turn, Step, refresh_due, take_refresh, take_stop, Run, here, next, first_turn,
}
use route_sync.App.Run.Turns.Ending.{
  is_reload, sighup_kept, Turns, none_yet, and_then, returns_soon,
}
use route_sync.Tests.Machine.{Machine, world, config}
use route_sync.Tests.Running.{options, start}

abbrev first : Turn Machine
first = first_turn world options config false start

going : first.daemon.stopped ≡ false
unfolding first_turn
going = refl

-- A tick comes.
abbrev due : Turn Machine
due = record first { refresh = true }

due-Run : Run world options first [] due
due-Run = next here (refresh_due first)

-- SIGHUP comes, and the loop takes the tick.
abbrev hung_up : Turn Machine
hung_up = record due { signals = arrive sighup due.signals }

abbrev ticked : Turn Machine
ticked = record hung_up {
  daemon = handle world options refresh_tick hung_up.daemon;
  refresh = false;
}

ticked-Run : Run world options hung_up (refresh_tick ∷ []) ticked
ticked-Run = next here (take_refresh hung_up going refl)

sighup_kept_example : (any is_reload (refresh_tick ∷ []) ≡ true) ⊎ (ticked.signals.reload ≡ 1)
sighup_kept_example =
    sighup_kept world options config false start [] (refresh_tick ∷ []) due ticked due-Run
      ticked-Run

-- SIGTERM comes, and the loop takes it.
abbrev ending : Turn Machine
ending = record due { signals = arrive sigterm due.signals }

ending_done : ending.signals.done ≡ true
unfolding arrive
ending_done = refl

abbrev ended : Turn Machine
ended = record ending { daemon = handle world options stop ending.daemon }

ended-Turns : Turns world options ending 1 ended
ended-Turns = and_then none_yet (take_stop ending going ending_done)

returns_soon_example :
    (1 ≤ 4)
    × ((ended.daemon.stopped ≡ true)
        ⊎ ((v : Turn Machine) × Step world options ended (stop ∷ []) v × (v.daemon.stopped ≡ true)))
returns_soon_example =
    returns_soon world options config false start [] due ended 1 sigterm (inr refl) due-Run
      ended-Turns
