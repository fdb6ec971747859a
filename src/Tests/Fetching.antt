-- ===== src/Tests/Fetching.antt =====
-- Fetches over a small web, whose state is the number of open readers, and the counters and the end
-- of the daemon on the test machine.
use route_sync.Base.{
  ℕ, suc, ◌+◌, ◌-◌, ◌≡◌, refl, sym, ap, String, Bool, true, false, not, ◌&&◌, List, [], ◌∷◌, All,
  any, once, length, str_eq, if◌then◌else◌,
}
use route_sync.Base.Int.{pos}
use route_sync.Base.Result.{Result, ok, err, state_of_eq}
use route_sync.Netip.{Prefix}
use route_sync.Source.Parsers.Masked.{IsMasked}
use route_sync.Source.Fetch.{Web, Reply, is_web, fetch_txt, fetch_ripe}
use route_sync.Source.Fetch.Closes.{IsLedger, fetch-closes}
use route_sync.Source.Fetch.Replies.{has_success, fetch_txt-has_success}
use route_sync.Base.Text.{count_any}
use route_sync.Metrics
use route_sync.Metrics.{counter, handler}
use route_sync.Metrics.Lines.{is_newline}
use route_sync.App.Run.Scrape.{handler-run_daemon}
use route_sync.App.Run.{
  Event, refresh_tick, reload, stop, reconcile_once, cleanup_owned, run_daemon,
}
use route_sync.App.Run.Counters.{is_err, counters_of_runs}
use route_sync.App.Run.Stopping.{is_stop, run_daemon-stopped}
use route_sync.Tests.Machine.{net_text, world, config, first_half, empty_machine}
use route_sync.Tests.Running.{options, start}

-- One text list, at any URL, and one document of RIPE's.
abbrev web : Web ℕ String
web = record {
  parse_url = λ raw. ok (record { scheme = "https"; path = "" });
  new_request = λ url. ok tt;
  do_get = λ url timeout s.
      (ok (record { status_code = 200; status = "200 OK"; body = "192.0.2.0/25" }), suc s);
  open_file = λ name s. (err "no such file", s);
  scan_lines = λ b s. (b ∷ [], s);
  read_all = λ b s. (ok b, s);
  close = λ b s. s - 1;
  to_upper = λ c. c;
  unmarshal = λ bytes. ok (bytes ∷ [], []);
}

err≢reply :
    (e : String) (s t : ℕ) (b : String) → ◌≡◌ {A = Result String × ℕ} (err e, s) (ok b, t) → ⊥
err≢reply e s t b h = cc

reply≢err :
    (a : Reply String) (e : String) (s t : ℕ)
    → ◌≡◌ {A = Result (Reply String) × ℕ} (ok a, s) (err e, t)
    → ⊥
reply≢err a e s t h = cc

web-IsLedger : IsLedger web (λ s. s)
web-IsLedger = record {
  got = λ url timeout s t reply h. sym (state_of_eq h);
  not_got = λ url timeout s t e h. absurd (reply≢err _ e _ t h);
  opened_file = λ name s t b h. absurd (err≢reply "no such file" s t b h);
  no_file = λ name s t e h. sym (state_of_eq h);
  scanned = λ b s. refl;
  read = λ b s. refl;
  closed = λ b s. refl;
}

fetch-closes_example :
    ((fetch_txt web net_text "https://example.org/zone.txt" (pos 30) 5).1 ≡ 5)
    × ((fetch_ripe web net_text "https://example.org/zone.txt" (pos 30) 5).1 ≡ 5)
fetch-closes_example =
    fetch-closes web (λ s. s) web-IsLedger net_text "https://example.org/zone.txt" (pos 30) 5

txt_fetched :
    fetch_txt web net_text "https://example.org/zone.txt" (pos 30) 0 ≡ (ok (first_half ∷ []), 0)
unfolding fetch_txt route_sync.Source.Parsers.parse_txt route_sync.Base.Text.trim_space
    route_sync.Base.Text.starts_with route_sync.Base.Text.has_any route_sync.Netip.masked
txt_fetched = refl

ripe_fetched : fetch_ripe web net_text "RU" (pos 30) 0 ≡ (ok (first_half ∷ []), 0)
unfolding fetch_ripe route_sync.Source.Parsers.parse_ripe route_sync.Base.Text.trim_space
    route_sync.Netip.masked
ripe_fetched = refl

fetch_txt-has_success_example :
    All IsMasked (first_half ∷ [])
    × (is_web (web.parse_url "https://example.org/zone.txt") ≡ true
        → has_success web "https://example.org/zone.txt" (pos 30) 0 ≡ true)
fetch_txt-has_success_example =
    fetch_txt-has_success web net_text "https://example.org/zone.txt" (pos 30) 0 0 (first_half ∷ [])
      txt_fetched

counters_of_runs_example :
    (counter "failed_reconcile_total" (reconcile_once world config false start).1.registry
      ≡ counter "failed_reconcile_total" start.registry
        + once (is_err (reconcile_once world config false start).0))
    × (counter "successful_reconcile_total" (reconcile_once world config false start).1.registry
        ≡ counter "successful_reconcile_total" start.registry
          + once (not (is_err (reconcile_once world config false start).0) && not false))
    × (counter "failed_cleanup_total" (cleanup_owned world config false start).1.registry
        ≡ counter "failed_cleanup_total" start.registry
          + once (is_err (cleanup_owned world config false start).0))
    × (counter "successful_cleanup_total" (cleanup_owned world config false start).1.registry
        ≡ counter "successful_cleanup_total" start.registry
          + once (not (is_err (cleanup_owned world config false start).0) && not false))
counters_of_runs_example = counters_of_runs world config false start

abbrev two_events : List Event
two_events = reload ∷ stop ∷ []

run_daemon-stopped_example :
    ((run_daemon world options config two_events start).stopped ≡ any is_stop two_events)
    × (any is_stop two_events ≡ true
        → run_daemon world options config (reload ∷ stop ∷ refresh_tick ∷ []) start
          ≡ run_daemon world options config two_events start)
run_daemon-stopped_example =
    run_daemon-stopped world options config two_events (refresh_tick ∷ []) start

handler-run_daemon_example :
    let r =
      (run_daemon world options config two_events
        (record { outside = empty_machine; registry = Metrics.new })).app.registry in
    count_any is_newline (handler (λ m. m) (λ m. m) r) ≡ length r.counters + length r.gauges
handler-run_daemon_example =
    handler-run_daemon world options (λ m. m) (λ m. m) (λ f m. refl) (λ f m. refl) config two_events
      empty_machine
