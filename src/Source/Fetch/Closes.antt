-- ===== src/Source/Fetch/Closes.antt =====
-- The readers that Fetch and open of internal/source/txt/txt.go and internal/source/ripe/ripe.go open.
use route_sync.Base.{
  ◌<>◌, ℕ, suc, ◌-◌, ◌≡◌, refl, String, Bool, true, false, arith, if◌then◌else◌, List,
}
use route_sync.Base.Int.{ℤ}
use route_sync.Base.Result.{Result, ok, err, Action, after_ok}
use route_sync.Netip.Text.{NetipText}
use route_sync.Netip.{Prefix}
use route_sync.Source.Parsers.{parse_txt}
use route_sync.Source.Fetch.{
  Web, Reply, is_success, is_web, file_path, answered, requested, open_source, fetch_txt,
  parse_body, read_body, endpoint, fetch_ripe,
}

-- `opened` counts the readers that are open: a reply and a file open one, closing closes it.
pub record IsLedger {S B : Type 0} (web : Web S B) (opened : S → ℕ) : Type 0 where
  pub got :
      (url : String) (timeout : ℤ) (s t : S) (reply : Reply B)
      → web.do_get url timeout s ≡ (ok reply, t)
      → opened t ≡ suc (opened s)
  pub not_got :
      (url : String) (timeout : ℤ) (s t : S) (e : String)
      → web.do_get url timeout s ≡ (err e, t)
      → opened t ≡ opened s
  pub opened_file :
      (name : String) (s t : S) (b : B)
      → web.open_file name s ≡ (ok b, t)
      → opened t ≡ suc (opened s)
  pub no_file :
      (name : String) (s t : S) (e : String)
      → web.open_file name s ≡ (err e, t)
      → opened t ≡ opened s
  pub scanned : (b : B) (s : S) → opened (web.scan_lines b s).1 ≡ opened s
  pub read : (b : B) (s : S) → opened (web.read_all b s).1 ≡ opened s
  pub closed : (b : B) (s : S) → opened (web.close b s) ≡ opened s - 1

module _ {S B : Type 0} (web : Web S B) (opened : S → ℕ) (ledger : IsLedger web opened) where
  -- A request leads to an error with as many readers open as before, or to the rest with one more.
  requested_cases :
      {A : Type 0} (P : Result A × S → Type 0) (url : String) (timeout : ℤ) (refusal : String)
      (next : B → Action S A) (s : S)
      → ((e : String) (t : S) → opened t ≡ opened s → P (err e, t))
      → ((b : B) (t : S) → opened t ≡ suc (opened s) → P (next b t))
      → P (requested web url timeout refusal next s)
  requested_cases P url timeout refusal next s none_open one_open = by_request (web.new_request url)
    where
      by_status :
          (success : Bool) (reply : Reply B) (t : S)
          → opened t ≡ suc (opened s)
          → P (
              if success
              then next reply.body t
              else (err (refusal <> reply.status), web.close reply.body t))
      by_status true reply t h = one_open reply.body t h
      by_status false reply t h =
          none_open _ (web.close reply.body t) (omega (arith, ledger.closed reply.body t, h))

      by_reply :
          (m : Result (Reply B) × S)
          → web.do_get url timeout s ≡ m
          → P (answered web refusal next m)
      by_reply (ok reply, t) h =
          by_status (is_success reply) reply t (ledger.got url timeout s t reply h)
      by_reply (err e, t) h = none_open e t (ledger.not_got url timeout s t e h)

      by_request :
          (r : Result (Unit {0}))
          → P (
              after_ok
                (r, s)
                (λ _ t. answered web refusal next (web.do_get url timeout t))
                (λ e t. (err e, t)))
      by_request (err e) = none_open e s refl
      by_request (ok _) = by_reply (web.do_get url timeout s) refl

  -- open ends with an error and as many readers open as before, or with one more.
  abbrev Opens : S → Result B × S → Type 0
  Opens s (ok b, t) = opened t ≡ suc (opened s)
  Opens s (err e, t) = opened t ≡ opened s

  open_source-Opens : (raw : String) (timeout : ℤ) (s : S) → Opens s (open_source web raw timeout s)
  unfolding open_source
  open_source-Opens raw timeout s = by_kind (is_web (web.parse_url raw))
    where
      by_file : (m : Result B × S) (name : String) → web.open_file name s ≡ m → Opens s m
      by_file (ok b, t) name h = ledger.opened_file name s t b h
      by_file (err e, t) name h = ledger.no_file name s t e h

      by_kind :
          (b : Bool)
          → Opens s (
              if b
              then requested web raw timeout "txt source returned " (λ b t. (ok b, t)) s
              else web.open_file (file_path raw (web.parse_url raw)) s)
      by_kind true = requested_cases (Opens s) raw timeout _ _ s (λ e t h. h) (λ b t h. h)
      by_kind false = by_file (web.open_file (file_path raw (web.parse_url raw)) s) _ refl

  module _ (text : NetipText) where
    read_body-closes :
        (b : B) (s t : S) → opened t ≡ suc (opened s) → opened (read_body web text b t).1 ≡ opened s
    read_body-closes b s t h = from (web.read_all b t) (ledger.read b t)
      where
        from :
            (m : Result String × S)
            → opened m.1 ≡ opened t
            → opened
                (after_ok {B = Result (List Prefix) × S} m
                  (λ bytes u. (parse_body web text bytes, web.close b u))
                  (λ e u. (err e, web.close b u))).1
              ≡ opened s
        from (ok bytes, u) k = omega (arith, ledger.closed b u, h, k)
        from (err e, u) k = omega (arith, ledger.closed b u, h, k)

    -- However a fetch of either source ends, it leaves no reader open that it has opened.
    pub fetch-closes :
        (source : String) (timeout : ℤ) (s : S)
        → (opened (fetch_txt web text source timeout s).1 ≡ opened s)
          × (opened (fetch_ripe web text source timeout s).1 ≡ opened s)
    unfolding fetch_txt fetch_ripe
    fetch-closes source timeout s = (
      scanned (open_source web source timeout s) (open_source-Opens source timeout s),
      requested_cases (λ m. opened m.1 ≡ opened s) (endpoint web text source) timeout _
          (read_body web text) s (λ e t h. h) (λ b t h. read_body-closes b s t h),
    )
      where
        scanned :
            (m : Result B × S)
            → Opens s m
            → opened
                (after_ok {B = Result (List Prefix) × S} m
                  (λ b t.
                    let (lines, u) = web.scan_lines b t in
                    (ok (parse_txt text lines), web.close b u))
                  (λ e t. (err e, t))).1
              ≡ opened s
        scanned (ok b, t) k =
            omega (arith, ledger.closed b (web.scan_lines b t).1, ledger.scanned b t, k)
        scanned (err e, t) k = k
