-- ===== src/Source/Fetch/Replies.antt =====
-- The replies that Fetch of internal/source/txt/txt.go and internal/source/ripe/ripe.go takes prefixes
-- from.
use route_sync.Base.{
  ◌≡◌, sym, ◌∙◌, ap, subst, String, ◌<>◌, Bool, true, false, List, All, if◌then◌else◌, Bool-cases,
  inl, inr,
}
use route_sync.Base.Int.{ℤ}
use route_sync.Base.Result.{
  Result, ok, err, Action, after_ok, after_ok-eq-ok, value_of_eq, state_of_eq, err≢ok,
}
use route_sync.Netip.{Prefix}
use route_sync.Netip.Text.{NetipText}
use route_sync.Source.Parsers.{parse_txt, parse_ripe}
use route_sync.Source.Parsers.Masked.{IsMasked, parse_txt-IsMasked, parse_ripe-IsMasked}
use route_sync.Source.Fetch.{
  Web, Reply, is_success, is_web, file_path, answered, requested, open_source, fetch_txt,
  parse_body, read_body, endpoint, fetch_ripe,
}

module _ {S B : Type 0} (web : Web S B) where
  abbrev succeeds : Result (Reply B) × S → Bool
  succeeds (ok reply, t) = is_success reply
  succeeds (err e, t) = false

  -- The request of the URL is answered with a status of the two hundreds.
  abbrev pub has_success : String → ℤ → S → Bool
  has_success url timeout s = succeeds (web.do_get url timeout s)

  -- What a request that ends well comes from.
  answered-ok :
      {A : Type 0} (refusal : String) (next : B → Action S A) (m : Result (Reply B) × S) {a : A}
      {t : S}
      → answered web refusal next m ≡ (ok a, t)
      → (succeeds m ≡ true) × (b : B) × (u : S) × (next b u ≡ (ok a, t))
  answered-ok refusal next (err e, u) {a} h = absurd (err≢ok e a (ap (λ p. p.0) h))
  answered-ok refusal next (ok reply, u) {a} h =
      let by = λ (b : Bool).
        if b then next reply.body u else (err (refusal <> reply.status), web.close reply.body u) in
      elim (Bool-cases (is_success reply)) [
        | inl good ↦ (good, reply.body, u, sym (ap by good) ∙ h)
        | inr bad ↦
            absurd (err≢ok (refusal <> reply.status) a (ap (λ p. p.0) (sym (ap by bad) ∙ h)))
      ]

  requested-ok :
      {A : Type 0} (url : String) (timeout : ℤ) (refusal : String) (next : B → Action S A) (s : S)
      {a : A} {t : S}
      → requested web url timeout refusal next s ≡ (ok a, t)
      → (has_success url timeout s ≡ true) × (b : B) × (u : S) × (next b u ≡ (ok a, t))
  requested-ok url timeout refusal next s h =
      let (_, u, e, k) =
        after_ok-eq-ok (web.new_request url, s)
          (λ _ t. answered web refusal next (web.do_get url timeout t)) h in
      answered-ok refusal next (web.do_get url timeout s)
        (ap (λ v. answered web refusal next (web.do_get url timeout v)) (state_of_eq e) ∙ k)

  open_source-ok :
      (raw : String) (timeout : ℤ) (s : S) {b : B} {t : S}
      → open_source web raw timeout s ≡ (ok b, t)
      → is_web (web.parse_url raw) ≡ true
      → has_success raw timeout s ≡ true
  unfolding open_source
  open_source-ok raw timeout s h k =
      (requested-ok raw timeout "txt source returned " (λ b t. (ok b, t)) s
        (sym (
            ap
              (λ c.
                if c
                then requested web raw timeout "txt source returned " (λ b t. (ok b, t)) s
                else web.open_file (file_path raw (web.parse_url raw)) s)
              k)
          ∙ h)).0

  module _ (text : NetipText) where
    parse_body-IsMasked :
        (bytes : String) (ps : List Prefix) → parse_body web text bytes ≡ ok ps → All IsMasked ps
    parse_body-IsMasked bytes ps h = from (web.unmarshal bytes) h
      where
        from :
            (r : Result (List String × List String))
            → (elim r as (λ _. Result (List Prefix)) [
              | err e ↦ err e
              | ok doc ↦ ok (parse_ripe text doc.0 doc.1)
            ])
              ≡ ok ps
            → All IsMasked ps
        from (err e) k = absurd (err≢ok e ps k)
        from (ok (v4, v6)) k =
            let same : parse_ripe text v4 v6 ≡ ps = cc in
            subst (All IsMasked) same (parse_ripe-IsMasked text v4 v6)

    -- If Fetch of ripe.go ends with prefixes, the request of its endpoint was answered with a status
    -- of the two hundreds, and the prefixes are in masked form.
    pub fetch_ripe-has_success :
        (country : String) (timeout : ℤ) (s t : S) (ps : List Prefix)
        → fetch_ripe web text country timeout s ≡ (ok ps, t)
        → (has_success (endpoint web text country) timeout s ≡ true) × All IsMasked ps
    unfolding fetch_ripe
    fetch_ripe-has_success country timeout s t ps h =
        let (good, b, v, read) =
          requested-ok (endpoint web text country) timeout "ripe stat returned "
            (read_body web text) s h in
        (good, from b (web.read_all b v) read)
      where
        from :
            (b : B) (m : Result String × S)
            → after_ok {B = Result (List Prefix) × S} m
                (λ bytes t. (parse_body web text bytes, web.close b t))
                (λ e t. (err e, web.close b t))
              ≡ (ok ps, t)
            → All IsMasked ps
        from b (err e, v) k = absurd (err≢ok e ps (ap (λ p. p.0) k))
        from b (ok bytes, v) k = parse_body-IsMasked bytes ps (ap (λ p. p.0) k)

    -- If Fetch of txt.go ends with prefixes, they are in masked form, and if its URL is one of the
    -- web, its request was answered with a status of the two hundreds.
    pub fetch_txt-has_success :
        (raw : String) (timeout : ℤ) (s t : S) (ps : List Prefix)
        → fetch_txt web text raw timeout s ≡ (ok ps, t)
        → All IsMasked ps × (is_web (web.parse_url raw) ≡ true → has_success raw timeout s ≡ true)
    unfolding fetch_txt
    fetch_txt-has_success raw timeout s t ps h =
        let (b, v, found, scanned) =
          after_ok-eq-ok (open_source web raw timeout s)
            (λ b t.
              let (lines, u) = web.scan_lines b t in (ok (parse_txt text lines), web.close b u))
            h in
        (
          subst (All IsMasked) (value_of_eq scanned)
              (parse_txt-IsMasked text (web.scan_lines b v).0),
          open_source-ok raw timeout s found,
        )
