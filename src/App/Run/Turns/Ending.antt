-- ===== src/App/Run/Turns/Ending.antt =====
-- What the signals do to the loop of runDaemon of internal/app/app.go.
use route_sync.Base.{
  ℕ, suc, ◌+◌, ◌≤◌, if◌then◌else◌, ◌≡◌, refl, Bool, true, false, ◌&&◌, List, [], ◌∷◌, any,
  any-append, arith, Bool-cases, inl, inr, ◌⊎◌,
}
use route_sync.Config.{Config}
use route_sync.Signals.{Signal, Set, sigint, sigterm, sighup, other, arrive, notify}
use route_sync.App.World.{World, AppState}
use route_sync.App.Run.{Options, Event, refresh_tick, health_tick, reload, stop}
use route_sync.App.Run.Stopping.{handle-stopped}
use route_sync.App.Run.Turns.{
  Turn, Step, signalled, refresh_due, health_due, take_refresh, take_health, take_reload, take_stop,
  Run, here, next, first_turn,
}

-- A reload that waits in the channel of one
abbrev Fits : ℕ → Type 0
Fits n = n ≤ 1

arrive-Fits : (s : Signal) (c : Set) → Fits c.reload → Fits (arrive s c).reload
unfolding arrive
arrive-Fits sigint c h = h
arrive-Fits sigterm c h = h
arrive-Fits sighup c h = ground arith
arrive-Fits other c h = h

arrive-waits : (s : Signal) (c : Set) → c.reload ≡ 1 → (arrive s c).reload ≡ 1
unfolding arrive
arrive-waits sigint c h = h
arrive-waits sigterm c h = h
arrive-waits sighup c h = ground arith
arrive-waits other c h = h

arrive_stop : (s : Signal) (c : Set) → (s ≡ sigint) ⊎ (s ≡ sigterm) → (arrive s c).done ≡ true
unfolding arrive
arrive_stop s c (inl e) = rw (e, arrive) refl
arrive_stop s c (inr e) = rw (e, arrive) refl

arrive_sighup : (c : Set) → Fits c.reload → (arrive sighup c).reload ≡ 1
unfolding arrive
arrive_sighup c h = ground arith

arrive-done : (s : Signal) (c : Set) → c.done ≡ true → (arrive s c).done ≡ true
unfolding arrive
arrive-done sigint c h = refl
arrive-done sigterm c h = refl
arrive-done sighup c h = h
arrive-done other c h = h

abbrev pub is_reload : Event → Bool
is_reload refresh_tick = false
is_reload health_tick = false
is_reload reload = true
is_reload stop = false

abbrev bit : Bool → ℕ
bit true = 1
bit false = 0

bit-and : (a b : Bool) → bit (a && b) ≤ bit b
bit-and true b = omega arith
bit-and false b = omega arith

bit-le : (b : Bool) → bit b ≤ 1
bit-le true = omega arith
bit-le false = omega arith

module _ (w : World) (o : Options) where
  Step-Fits :
      {t u : Turn w.kernel.State} {l : List Event}
      → Step w o t l u
      → Fits t.signals.reload
      → Fits u.signals.reload
  Step-Fits (signalled s t) h = arrive-Fits s t.signals h
  Step-Fits (refresh_due t) h = h
  Step-Fits (health_due t) h = h
  Step-Fits (take_refresh t going ready) h = h
  Step-Fits (take_health t going ready) h = h
  Step-Fits (take_reload t n kept going ready) h = ground (arith, ready, h)
  Step-Fits (take_stop t going ready) h = h

  Run-Fits :
      {t u : Turn w.kernel.State} {es : List Event}
      → Run w o t es u
      → Fits t.signals.reload
      → Fits u.signals.reload
  Run-Fits here h = h
  Run-Fits (next r st) h = Step-Fits st (Run-Fits r h)

  -- A reload waits until it is taken.
  Step-waits :
      {t u : Turn w.kernel.State} {l : List Event}
      → Step w o t l u
      → t.signals.reload ≡ 1
      → (any is_reload l ≡ true) ⊎ (u.signals.reload ≡ 1)
  Step-waits (signalled s t) h = inr (arrive-waits s t.signals h)
  Step-waits (refresh_due t) h = inr h
  Step-waits (health_due t) h = inr h
  Step-waits (take_refresh t going ready) h = inr h
  Step-waits (take_health t going ready) h = inr h
  Step-waits (take_reload t n kept going ready) h = inl refl
  Step-waits (take_stop t going ready) h = inr h

  Run-waits :
      {t u : Turn w.kernel.State} {es : List Event}
      → Run w o t es u
      → t.signals.reload ≡ 1
      → (any is_reload es ≡ true) ⊎ (u.signals.reload ≡ 1)
  Run-waits here h = inr h
  Run-waits (next {es = es} {l = l} r st) h = elim (Run-waits r h) [
    | inl taken ↦ inl (ground (arith, taken, any-append is_reload es l))
    | inr waits ↦ elim (Step-waits st waits) [
      | inl taken ↦ inl (ground (arith, taken, any-append is_reload es l))
      | inr still ↦ inr still
    ]
  ]

  -- No SIGHUP is lost, and several before the next reload are one: at any time after one has come
  -- while the daemon runs, the loop has taken a reload since, or exactly one waits.
  pub sighup_kept :
      (cfg : Config) (parent_done : Bool) (s : AppState w.kernel.State) (es fs : List Event)
      (t u : Turn w.kernel.State)
      → Run w o (first_turn w o cfg parent_done s) es t
      → Run w o (record t { signals = arrive sighup t.signals }) fs u
      → (any is_reload fs ≡ true) ⊎ (u.signals.reload ≡ 1)
  unfolding first_turn notify
  sighup_kept cfg parent_done s es fs t u r q =
      Run-waits q (arrive_sighup t.signals (Run-Fits r (omega arith)))

  -- Turns of the loop alone, with how many there are
  pub data Turns (t : Turn w.kernel.State) : ℕ → Turn w.kernel.State → Type 0 where
    none_yet : Turns t 0 t
    and_then :
        {n : ℕ} {u v : Turn w.kernel.State} {e : Event}
        → Turns t n u
        → Step w o u (e ∷ []) v
        → Turns t (suc n) v

  -- How many turns the loop has left if nothing else comes
  abbrev left : Turn w.kernel.State → ℕ
  left t = if t.daemon.stopped then 0 else suc (t.signals.reload + (bit t.refresh + bit t.health))

  Step-left :
      {t u : Turn w.kernel.State} {e : Event} → Step w o t (e ∷ []) u → suc (left u) ≤ left t
  Step-left (take_refresh t going ready) =
      ground (arith, going, ready, handle-stopped w o refresh_tick t.daemon going)
  Step-left (take_health t going ready) =
      ground (arith, going, ready, handle-stopped w o health_tick t.daemon going)
  Step-left (take_reload t n kept going ready) = ground (
    arith,
    going,
    ready,
    handle-stopped w o reload t.daemon going,
    bit-and kept t.refresh,
    bit-and kept t.health,
  )
  Step-left (take_stop t going ready) =
      ground (arith, going, handle-stopped w o stop t.daemon going)

  Turns-left : {t u : Turn w.kernel.State} {n : ℕ} → Turns t n u → n + left u ≤ left t
  Turns-left none_yet = omega arith
  Turns-left (and_then r st) = omega (arith, Turns-left r, Step-left st)

  Step-done :
      {t u : Turn w.kernel.State} {l : List Event}
      → Step w o t l u
      → t.signals.done ≡ true
      → u.signals.done ≡ true
  Step-done (signalled s t) h = arrive-done s t.signals h
  Step-done (refresh_due t) h = h
  Step-done (health_due t) h = h
  Step-done (take_refresh t going ready) h = h
  Step-done (take_health t going ready) h = h
  Step-done (take_reload t n kept going ready) h = h
  Step-done (take_stop t going ready) h = h

  Turns-done :
      {t u : Turn w.kernel.State} {n : ℕ}
      → Turns t n u
      → t.signals.done ≡ true
      → u.signals.done ≡ true
  Turns-done none_yet h = h
  Turns-done (and_then r st) h = Step-done st (Turns-done r h)

  left-le : (t : Turn w.kernel.State) → Fits t.signals.reload → left t ≤ 4
  left-le t h = elim (Bool-cases t.daemon.stopped) [
    | inl e ↦ ground (arith, e)
    | inr e ↦ ground (arith, e, h, bit-le t.refresh, bit-le t.health)
  ]

  -- The daemon returns: if SIGINT or SIGTERM comes at any time, and nothing else after it, the loop
  -- makes at most four more turns, whatever `select` takes; and as long as it has not returned, it can
  -- take the stop, upon which it has returned.
  pub returns_soon :
      (cfg : Config) (parent_done : Bool) (s : AppState w.kernel.State) (es : List Event)
      (t u : Turn w.kernel.State) (n : ℕ) (signal : Signal)
      → (signal ≡ sigint) ⊎ (signal ≡ sigterm)
      → Run w o (first_turn w o cfg parent_done s) es t
      → Turns (record t { signals = arrive signal t.signals }) n u
      → (n ≤ 4)
        × ((u.daemon.stopped ≡ true)
            ⊎ ((v : Turn w.kernel.State) × Step w o u (stop ∷ []) v × (v.daemon.stopped ≡ true)))
  unfolding first_turn notify
  returns_soon cfg parent_done s es t u n signal ends r turns =
      let told : Turn w.kernel.State = record t { signals = arrive signal t.signals } in
      let fits = arrive-Fits signal t.signals (Run-Fits r (omega arith)) in
      (
        omega (arith, Turns-left turns, left-le told fits),
        elim (Bool-cases u.daemon.stopped) [
          | inl over ↦ inl over
          | inr going ↦
              let done = Turns-done turns (arrive_stop signal t.signals ends) in
              inr (_, take_stop u going done, handle-stopped w o stop u.daemon going)
        ],
      )
