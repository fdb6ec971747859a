-- ===== src/App/Run/Stopping.antt =====
-- When the loop of runDaemon of internal/app/app.go returns.
use route_sync.Base.{
  ◌≡◌, refl, sym, ◌∙◌, ap, Bool, true, false, List, [], ◌∷◌, ◌++◌, any, arith, if◌then◌else◌,
  Bool-cases, inl, inr,
}
use route_sync.Base.Result.{Result, ok, err, after_ok}
use route_sync.Config.{Config}
use route_sync.App.World.{World, AppState, lift}
use route_sync.App.Run.{
  Options, Event, refresh_tick, health_tick, reload, stop, DaemonState, load_config, run, on_reload,
  handle, daemon_loop, run_daemon,
}

abbrev pub is_stop : Event → Bool
is_stop refresh_tick = false
is_stop health_tick = false
is_stop reload = false
is_stop stop = true

module _ (w : World) (o : Options) where
  on_reload-stopped : (d : DaemonState w.kernel.State) → (on_reload w o d).stopped ≡ false
  unfolding on_reload
  on_reload-stopped d = from (lift (load_config w o) d.app)
    where
      from :
          (m : Result Config × AppState w.kernel.State)
          → (after_ok {B = DaemonState w.kernel.State} m
              (λ next t. record { active = next; app = run w o next t; stopped = false })
              (λ e t. record { active = d.active; app = t; stopped = false })).stopped
            ≡ false
      from (ok c, t) = refl
      from (err e, t) = refl

  pub handle-stopped :
      (e : Event) (d : DaemonState w.kernel.State)
      → d.stopped ≡ false
      → (handle w o e d).stopped ≡ is_stop e
  unfolding handle
  handle-stopped refresh_tick d h = h
  handle-stopped health_tick d h = h
  handle-stopped reload d h = on_reload-stopped d
  handle-stopped stop d h = refl

  pub loop_ended :
      (es : List Event) (d : DaemonState w.kernel.State)
      → d.stopped ≡ true
      → daemon_loop w o es d ≡ d
  unfolding daemon_loop
  loop_ended [] d h = refl
  loop_ended (e ∷ es) d h = ap (λ b. if b then d else daemon_loop w o es (handle w o e d)) h

  pub loop_goes_on :
      (e : Event) (es : List Event) (d : DaemonState w.kernel.State)
      → d.stopped ≡ false
      → daemon_loop w o (e ∷ es) d ≡ daemon_loop w o es (handle w o e d)
  unfolding daemon_loop
  loop_goes_on e es d h = ap (λ b. if b then d else daemon_loop w o es (handle w o e d)) h

  daemon_loop-stopped :
      (es : List Event) (d : DaemonState w.kernel.State)
      → d.stopped ≡ false
      → (daemon_loop w o es d).stopped ≡ any is_stop es
  unfolding daemon_loop
  daemon_loop-stopped [] d h = h
  daemon_loop-stopped (e ∷ es) d h =
      let next = handle w o e d in
      let here = handle-stopped e d h in
      ap (λ c. c.stopped) (loop_goes_on e es d h) ∙ (elim (Bool-cases (is_stop e)) [
        | inl k ↦ ap (λ c. c.stopped) (loop_ended es next (here ∙ k)) ∙ ground (arith, here, k)
        | inr k ↦ daemon_loop-stopped es next (here ∙ k) ∙ ground (arith, k)
      ])

  daemon_loop-after_stop :
      (es fs : List Event) (d : DaemonState w.kernel.State)
      → any is_stop es ≡ true
      → daemon_loop w o (es ++ fs) d ≡ daemon_loop w o es d
  daemon_loop-after_stop [] fs d h = cc
  daemon_loop-after_stop (e ∷ es) fs d h = elim (Bool-cases d.stopped) [
    | inl over ↦ loop_ended (e ∷ (es ++ fs)) d over ∙ sym (loop_ended (e ∷ es) d over)
    | inr going ↦
        let next = handle w o e d in
        let here = handle-stopped e d going in
        loop_goes_on e (es ++ fs) d going
        ∙ (elim (Bool-cases (is_stop e)) [
          | inl k ↦ loop_ended (es ++ fs) next (here ∙ k) ∙ sym (loop_ended es next (here ∙ k))
          | inr k ↦ daemon_loop-after_stop es fs next (ground (arith, h, k))
        ])
        ∙ sym (loop_goes_on e es d going)
  ]

  -- The daemon has returned exactly if a stop is among what it has waited for, and what comes behind
  -- a stop changes nothing.
  pub run_daemon-stopped :
      (cfg : Config) (es fs : List Event) (s : AppState w.kernel.State)
      → ((run_daemon w o cfg es s).stopped ≡ any is_stop es)
        × (any is_stop es ≡ true → run_daemon w o cfg (es ++ fs) s ≡ run_daemon w o cfg es s)
  unfolding run_daemon
  run_daemon-stopped cfg es fs s = (daemon_loop-stopped es _ refl, daemon_loop-after_stop es fs _)
