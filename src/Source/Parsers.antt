-- ===== src/Source/Parsers.antt =====
-- Parse of internal/source/txt/txt.go and of internal/source/ripe/ripe.go, from the lines that the
-- Scanner yields and from the decoded document on. HTTP and files are not modelled.
pub mod Masked
use route_sync.Base.{
  ℕ, String, Bool, ◌||◌, Option, none, some, List, [], ◌∷◌, ◌++◌, str_eq, ◌==◌, if◌then◌else◌,
}
use route_sync.Base.Text.{trim_space, starts_with, has_any, before_any}
use route_sync.Netip.{Prefix, masked}
use route_sync.Netip.Text.{NetipText}

-- `#` and `;`
unfoldable pub is_mark : ℕ → Bool
is_mark c = c == 35 || c == 59

module _ (text : NetipText) where
  -- The body of the loop of Parse in txt.go: `none` for `continue`. The log line is not modelled.
  unfoldable pub parse_line : String → Option Prefix
  unfolding is_mark
  parse_line line =
      let s = trim_space line in
      if str_eq s "" || starts_with is_mark s
      then none
      else elim (text.parse_prefix
          (if has_any is_mark s then trim_space (before_any is_mark s) else s)) [
            | none ↦ none
            | some p ↦ some (masked p)
          ]

  -- Parse of txt.go
  unfoldable pub parse_txt : List String → List Prefix
  unfolding parse_line
  parse_txt [] = []
  parse_txt (line ∷ lines) = elim (parse_line line) [
    | none ↦ parse_txt lines
    | some p ↦ p ∷ parse_txt lines
  ]

  -- The loop of Parse of ripe.go.
  unfoldable pub parse_resources : List String → List Prefix
  parse_resources [] = []
  parse_resources (raw ∷ rest) = elim (text.parse_prefix (trim_space raw)) [
    | none ↦ parse_resources rest
    | some p ↦ masked p ∷ parse_resources rest
  ]

  -- Parse of ripe.go, at the two lists of the document
  unfoldable pub parse_ripe : List String → List String → List Prefix
  unfolding parse_resources
  parse_ripe ipv4 ipv6 = parse_resources (ipv4 ++ ipv6)
