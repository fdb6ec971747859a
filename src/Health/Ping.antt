-- ===== src/Health/Ping.antt =====
-- ExecPinger of internal/health/health.go. The ping program, and the seconds of a time.Duration
-- rounded up, which the program computes with floating point, are parameters.
use route_sync.Base.{◌≡◌, String, ◌<>◌, true, List, [], ◌∷◌, ◌++◌, str_eq, arith, if◌then◌else◌}
use route_sync.Base.Int.{ℤ, pos, ltb_ℤ, leb_ℤ, show_ℤ}
use route_sync.Base.Result.{Result, ok, err, Action}
use route_sync.Netip.{Addr, is6}

-- `run_ping` runs ping with arguments, and returns its error and its output.
pub record Exec (S : Type 0) : Type 0 where
  pub run_ping : List String → S → (Result (Unit {0}) × String) × S
  pub ceil_seconds : ℤ → ℤ
  pub addr_string : Addr → String

module _ {S : Type 0} (exec : Exec S) where
  -- waitSeconds
  unfoldable pub wait_seconds : ℤ → ℤ
  wait_seconds timeout =
      if ltb_ℤ (exec.ceil_seconds timeout) (pos 1) then pos 1 else exec.ceil_seconds timeout

  -- The arguments of Ping.
  unfoldable pub ping_args : String → Addr → ℤ → List String
  unfolding wait_seconds
  ping_args dev target timeout =
      (if is6 target then "-6" else "-4")
      ∷ "-c"
      ∷ "1"
      ∷ "-W"
      ∷ show_ℤ (wait_seconds timeout)
      ∷ ((if str_eq dev "" then [] else "-I" ∷ dev ∷ []) ++ (exec.addr_string target ∷ []))

  abbrev reported : (Result (Unit {0}) × String) × S → Result (Unit {0}) × S
  reported ((ok _, out), s) = (ok tt, s)
  reported ((err e, out), s) = (err (e <> (": " <> out)), s)

  -- Ping
  unfoldable pub exec_ping : String → Addr → ℤ → Action S (Unit {0})
  unfolding ping_args
  exec_ping dev target timeout s = reported (exec.run_ping (ping_args dev target timeout) s)

  -- ping is never told to wait for less than a second.
  wait_seconds-ge : (timeout : ℤ) → leb_ℤ (pos 1) (wait_seconds timeout) ≡ true
  unfolding wait_seconds
  wait_seconds-ge timeout = ground arith
