-- ===== src/Source/Fetch.antt =====
-- Fetch and open of internal/source/txt/txt.go and Fetch of internal/source/ripe/ripe.go, with New of
-- both. What they call of net/http, net/url, os, bufio, io, strings and encoding/json is a record of
-- operations.
pub mod Closes
pub mod Replies
use route_sync.Base.{
  ℕ, ◌/◌, String, ◌<>◌, Bool, true, false, not, ◌&&◌, ◌||◌, List, str_eq, ◌==◌, if◌then◌else◌,
}
use route_sync.Base.Int.{ℤ}
use route_sync.Base.Result.{Result, ok, err, Action, after_ok}
use route_sync.Netip.{Prefix}
use route_sync.Netip.Text.{NetipText}
use route_sync.Source.Parsers.{parse_txt, parse_ripe}

-- What the program reads of a http.Response. net/http lets no negative status pass.
pub record Reply (B : Type 0) : Type 0 where
  pub status_code : ℕ
  pub status : String
  pub body : B

-- What the program reads of a url.URL.
pub record Url : Type 0 where
  pub scheme : String
  pub path : String

-- `B` is an io.Reader that is closed in the end: a body or a file. `do_get` is Client.Do, of a client
-- with the timeout; `scan_lines` is the loop over a bufio.Scanner, which yields lines until the end
-- or an error; `unmarshal` is json.Unmarshal into the two lists of RIPE's document.
pub record Web (S B : Type 0) : Type 0 where
  pub parse_url : String → Result Url
  pub new_request : String → Result (Unit {0})
  pub do_get : String → ℤ → Action S (Reply B)
  pub open_file : String → Action S B
  pub scan_lines : B → S → List String × S
  pub read_all : B → Action S String
  pub close : B → S → S
  pub to_upper : String → String
  pub unmarshal : String → Result (List String × List String)

-- `resp.StatusCode/100 != 2`, negated
abbrev pub is_success : {B : Type 0} → Reply B → Bool
is_success reply = reply.status_code / 100 == 2

-- `err == nil && (u.Scheme == "http" || u.Scheme == "https")`
abbrev pub is_web : Result Url → Bool
is_web (err e) = false
is_web (ok u) = str_eq u.scheme "http" || str_eq u.scheme "https"

-- The path of open: that of a file URL, and the whole text else.
abbrev pub file_path : String → Result Url → String
file_path raw (err e) = raw
file_path raw (ok u) = if str_eq u.scheme "file" then u.path else raw

module _ {S B : Type 0} (web : Web S B) where
  -- What follows Client.Do: its error, or what `next` makes of the body of a reply that is a
  -- success. Another reply is closed.
  abbrev pub answered :
      {A : Type 0} → String → (B → Action S A) → Result (Reply B) × S → Result A × S
  answered refusal next m =
      after_ok m
        (λ reply t.
          if is_success reply
          then next reply.body t
          else (err (refusal <> reply.status), web.close reply.body t))
        (λ e t. (err e, t))

  -- NewRequestWithContext, Client.Do and the rest.
  abbrev pub requested : {A : Type 0} → String → ℤ → String → (B → Action S A) → Action S A
  requested url timeout refusal next s =
      after_ok (web.new_request url, s) (λ _ t. answered refusal next (web.do_get url timeout t))
        (λ e t. (err e, t))

  -- open, of a Provider of New
  unfoldable pub open_source : String → ℤ → Action S B
  open_source raw timeout s =
      if is_web (web.parse_url raw)
      then requested raw timeout "txt source returned " (λ b t. (ok b, t)) s
      else web.open_file (file_path raw (web.parse_url raw)) s

  module _ (text : NetipText) where
    -- Fetch of txt.go
    unfoldable pub fetch_txt : String → ℤ → Action S (List Prefix)
    unfolding open_source
    fetch_txt raw timeout s =
        after_ok (open_source raw timeout s)
          (λ b t. let (lines, u) = web.scan_lines b t in (ok (parse_txt text lines), web.close b u))
          (λ e t. (err e, t))

    -- The endpoint, at a country as New has it.
    abbrev pub endpoint : String → String
    endpoint country =
        "https://stat.ripe.net/data/country-resource-list/data.json?resource="
        <> (web.to_upper country <> "&v4_format=prefix")

    -- Parse of ripe.go, from the body on.
    abbrev pub parse_body : String → Result (List Prefix)
    parse_body bytes = elim (web.unmarshal bytes) [
      | err e ↦ err e
      | ok doc ↦ ok (parse_ripe text doc.0 doc.1)
    ]

    -- ReadAll and Parse, with the deferred Close.
    abbrev pub read_body : B → Action S (List Prefix)
    read_body b s =
        after_ok (web.read_all b s) (λ bytes t. (parse_body bytes, web.close b t))
          (λ e t. (err e, web.close b t))

    -- Fetch of ripe.go
    unfoldable pub fetch_ripe : String → ℤ → Action S (List Prefix)
    fetch_ripe country timeout =
        requested (endpoint country) timeout "ripe stat returned " read_body
