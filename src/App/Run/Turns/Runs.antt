-- ===== src/App/Run/Turns/Runs.antt =====
-- The steps of the loop of runDaemon of internal/app/app.go against its run over a list of events.
use route_sync.Base.{
  append_nil, append_assoc, ℕ, zero, suc, ltb, if◌then◌else◌, ◌≡◌, refl, sym, ◌∙◌, ap, subst, Bool,
  true, false, List, [], ◌∷◌, ◌++◌, arith, Bool-cases, inl, inr,
}
use route_sync.Config.{Config}
use route_sync.Signals.{Set, sigterm, sighup, arrive, reload_capacity}
use route_sync.App.World.{World, AppState}
use route_sync.App.Run.{
  Options, Event, refresh_tick, health_tick, reload, stop, DaemonState, handle, daemon_loop,
  run_daemon,
}
use route_sync.App.Run.Stopping.{loop_ended, loop_goes_on}
use route_sync.App.Run.Turns.{
  Turn, Step, signalled, refresh_due, health_due, take_refresh, take_health, take_reload, take_stop,
  Run, here, next, first_turn,
}

pub sighup_waits : (s : Set) → (n : ℕ) × ((arrive sighup s).reload ≡ suc n)
unfolding arrive
sighup_waits s = waiting s.reload
  where
    waiting : (r : ℕ) → (n : ℕ) × ((if ltb r reload_capacity then suc r else r) ≡ suc n)
    waiting zero = (0, refl)
    waiting (suc m) = (m, ground arith)

module _ (w : World) (o : Options) where
  loop-snoc :
      (es : List Event) (e : Event) (d : DaemonState w.kernel.State)
      → (daemon_loop w o es d).stopped ≡ false
      → daemon_loop w o (es ++ (e ∷ [])) d ≡ handle w o e (daemon_loop w o es d)
  unfolding daemon_loop
  loop-snoc [] e d h = loop_goes_on w o e [] d h
  loop-snoc (x ∷ xs) e d h = elim (Bool-cases d.stopped) [
    | inl over ↦
        let same = ap (λ c. c.stopped) (loop_ended w o (x ∷ xs) d over) in
        ground (arith, h, same, over)
    | inr going ↦
        let first = loop_goes_on w o x xs d going in
        loop_goes_on w o x (xs ++ (e ∷ [])) d going
        ∙ loop-snoc xs e (handle w o x d) (sym (ap (λ c. c.stopped) first) ∙ h)
        ∙ ap (handle w o e) (sym first)
  ]

  -- What the loop takes in a step is what it handles.
  Step-handled :
      {t u : Turn w.kernel.State} {l : List Event} (es : List Event)
      (d : DaemonState w.kernel.State)
      → Step w o t l u
      → t.daemon ≡ daemon_loop w o es d
      → u.daemon ≡ daemon_loop w o (es ++ l) d
  Step-handled es d (signalled s t) h = h ∙ ap (λ fs. daemon_loop w o fs d) (sym (append_nil es))
  Step-handled es d (refresh_due t) h = h ∙ ap (λ fs. daemon_loop w o fs d) (sym (append_nil es))
  Step-handled es d (health_due t) h = h ∙ ap (λ fs. daemon_loop w o fs d) (sym (append_nil es))
  Step-handled es d (take_refresh t going ready) h =
      ap (handle w o refresh_tick) h
      ∙ sym (loop-snoc es refresh_tick d (sym (ap (λ c. c.stopped) h) ∙ going))
  Step-handled es d (take_health t going ready) h =
      ap (handle w o health_tick) h
      ∙ sym (loop-snoc es health_tick d (sym (ap (λ c. c.stopped) h) ∙ going))
  Step-handled es d (take_reload t n kept going ready) h =
      ap (handle w o reload) h ∙ sym (loop-snoc es reload d (sym (ap (λ c. c.stopped) h) ∙ going))
  Step-handled es d (take_stop t going ready) h =
      ap (handle w o stop) h ∙ sym (loop-snoc es stop d (sym (ap (λ c. c.stopped) h) ∙ going))

  Run-daemon_loop :
      {t u : Turn w.kernel.State} {es : List Event}
      → Run w o t es u
      → u.daemon ≡ daemon_loop w o es t.daemon
  unfolding daemon_loop
  Run-daemon_loop here = refl
  Run-daemon_loop {t} (next {es} r st) = Step-handled es t.daemon st (Run-daemon_loop r)

  -- The channel fills and the loop takes from it.
  one_event :
      (e : Event) (t : Turn w.kernel.State)
      → t.daemon.stopped ≡ false
      → (u : Turn w.kernel.State) × Run w o t (e ∷ []) u × (u.daemon ≡ handle w o e t.daemon)
  unfolding arrive
  one_event refresh_tick t going =
      let due = record t { refresh = true } in
      (_, next (next here (refresh_due t)) (take_refresh due going refl), refl)
  one_event health_tick t going =
      let due = record t { health = true } in
      (_, next (next here (health_due t)) (take_health due going refl), refl)
  one_event reload t going =
      let due = record t { signals = arrive sighup t.signals } in
      let (n, waits) = sighup_waits t.signals in
      (
        record due {
          daemon = handle w o reload t.daemon;
          signals = record due.signals { reload = n };
        },
        next (next here (signalled sighup t)) (take_reload due n true going waits),
        refl,
      )
  one_event stop t going =
      let due = record t { signals = arrive sigterm t.signals } in
      (_, next (next here (signalled sigterm t)) (take_stop due going refl), refl)

  Run-append :
      {t u v : Turn w.kernel.State} {es fs : List Event}
      → Run w o t es u
      → Run w o u fs v
      → Run w o t (es ++ fs) v
  Run-append {t} {u} {v} {es} r here = subst (λ l. Run w o t l u) (sym (append_nil es)) r
  Run-append {t} {u} {v} {es} r (next {es = fs} {l = l} q st) =
      subst (λ k. Run w o t k v) (sym (append_assoc es fs l)) (next (Run-append r q) st)

  any_events :
      (es : List Event) (t : Turn w.kernel.State)
      → (fs : List Event) × (u : Turn w.kernel.State) × Run w o t fs u
        × (u.daemon ≡ daemon_loop w o es t.daemon)
  unfolding daemon_loop
  any_events [] t = ([], t, here, refl)
  any_events (e ∷ es) t = elim (Bool-cases t.daemon.stopped) [
    | inl over ↦ ([], t, here, sym (loop_ended w o (e ∷ es) t.daemon over))
    | inr going ↦
        let (u, r, same) = one_event e t going in
        let (fs, v, q, handled) = any_events es u in
        (
          (e ∷ []) ++ fs,
          v,
          Run-append r q,
          handled ∙ ap (daemon_loop w o es) same ∙ sym (loop_goes_on w o e es t.daemon going),
        )
  ]

  -- The daemon as steps, in which its channels fill at any time and `select` takes any that is ready,
  -- is the daemon over lists of events: a run of the steps ends in the state of runDaemon over what
  -- the loop took, and every state that runDaemon reaches over some events a run of the steps
  -- reaches.
  pub Run-run_daemon :
      (cfg : Config) (parent_done : Bool) (s : AppState w.kernel.State)
      → ((es : List Event) (u : Turn w.kernel.State)
          → Run w o (first_turn w o cfg parent_done s) es u
          → u.daemon ≡ run_daemon w o cfg es s)
        × ((es : List Event)
            → (fs : List Event) × (u : Turn w.kernel.State) × Run w o
                (first_turn w o cfg parent_done s)
                fs
                u
              × (u.daemon ≡ run_daemon w o cfg es s))
  unfolding run_daemon first_turn
  Run-run_daemon cfg parent_done s =
      (λ es u r. Run-daemon_loop r, λ es. any_events es (first_turn w o cfg parent_done s))
