-- ===== src/Source/Parsers/Masked.antt =====
-- The form of the prefixes that txt.go, ripe.go and LoadGroup of internal/state/state.go parse.
use route_sync.Base.{
  ℕ, zero, suc, ◌-◌, ◌≡◌, refl, String, Bool, true, false, Option, none, some, List, [], ◌∷◌, ◌++◌,
  All, Bool-cases, subst, inl, inr, if◌then◌else◌, div-pow_base, leb,
}
use route_sync.Base.Text.{trim_space}
use route_sync.Netip.{Addr, Prefix, ip4, ip6, zero_addr, masked, prefix_from, addr_prefix}
use route_sync.Netip.Text.{NetipText}
use route_sync.State.{parse_prefixes}
use route_sync.Source.Parsers.{parse_line, parse_txt, parse_resources, parse_ripe}

-- A prefix that masking leaves as it is.
abbrev pub IsMasked : Prefix → Type 0
IsMasked p = masked p ≡ p

addr_prefix-IsMasked : (i : Addr) (c : ℕ) → IsMasked (addr_prefix i c)
unfolding masked addr_prefix prefix_from
addr_prefix-IsMasked zero_addr c = refl
addr_prefix-IsMasked (ip4 n) zero = refl
addr_prefix-IsMasked (ip6 n z) zero = refl
addr_prefix-IsMasked (ip4 n) (suc b) = elim (Bool-cases (leb b 32)) [
  | inl fits ↦ rw (fits, fits, div-pow_base n (32 - b)) refl
  | inr long ↦ rw long refl
]
addr_prefix-IsMasked (ip6 n z) (suc b) = elim (Bool-cases (leb b 128)) [
  | inl fits ↦ rw (fits, fits, div-pow_base n (128 - b)) refl
  | inr long ↦ rw long refl
]

pub masked-IsMasked : (p : Prefix) → IsMasked (masked p)
unfolding masked
masked-IsMasked p = addr_prefix-IsMasked p.ip p.bits_plus_one

-- A step of a loop that appends what it finds.
found_IsMasked :
    (o : Option Prefix) (out : Prefix → Prefix) (rest : List Prefix)
    → ((p : Prefix) → IsMasked (out p))
    → All IsMasked rest
    → All IsMasked (elim o as (λ _. List Prefix) [ none ↦ rest | some p ↦ out p ∷ rest ])
found_IsMasked none out rest h k = k
found_IsMasked (some p) out rest h k = (h p, k)

module _ (text : NetipText) where
  parse_line-IsMasked : (line : String) (p : Prefix) → parse_line text line ≡ some p → IsMasked p
  unfolding parse_line
  parse_line-IsMasked line p h = by_result _ _ h
    where
      by_result :
          (skipped : Bool) (o : Option Prefix)
          → (if skipped
              then none
              else elim o as (λ _. Option Prefix) [ none ↦ none | some q ↦ some (masked q) ])
            ≡ some p
          → IsMasked p
      by_result true o e = cc
      by_result false none e = cc
      by_result false (some q) e =
          let same : masked q ≡ p = cc in subst IsMasked same (masked-IsMasked q)

  pub parse_txt-IsMasked : (lines : List String) → All IsMasked (parse_txt text lines)
  unfolding parse_txt
  parse_txt-IsMasked [] = tt
  parse_txt-IsMasked (line ∷ lines) = at_line (parse_line text line) refl (parse_txt-IsMasked lines)
    where
      at_line :
          (o : Option Prefix)
          → parse_line text line ≡ o
          → All IsMasked (parse_txt text lines)
          → All IsMasked (elim o as (λ _. List Prefix) [
            | none ↦ parse_txt text lines
            | some p ↦ p ∷ parse_txt text lines
          ])
      at_line none e k = k
      at_line (some p) e k = (parse_line-IsMasked line p e, k)

  parse_resources-IsMasked : (raws : List String) → All IsMasked (parse_resources text raws)
  unfolding parse_resources
  parse_resources-IsMasked [] = tt
  parse_resources-IsMasked (raw ∷ rest) =
      found_IsMasked (text.parse_prefix (trim_space raw)) masked _ masked-IsMasked
        (parse_resources-IsMasked rest)

  pub parse_ripe-IsMasked : (ipv4 ipv6 : List String) → All IsMasked (parse_ripe text ipv4 ipv6)
  unfolding parse_ripe
  parse_ripe-IsMasked ipv4 ipv6 = parse_resources-IsMasked (ipv4 ++ ipv6)

  parse_prefixes-IsMasked : (raws : List String) → All IsMasked (parse_prefixes text raws)
  unfolding parse_prefixes
  parse_prefixes-IsMasked [] = tt
  parse_prefixes-IsMasked (raw ∷ rest) =
      found_IsMasked (text.parse_prefix raw) masked _ masked-IsMasked (parse_prefixes-IsMasked rest)

  -- Whatever the lines of a text file, the texts of RIPE's document and the stored texts are: every
  -- prefix that the two Parse functions and LoadGroup make of them is in masked form.
  pub parsed-IsMasked :
      (lines ipv4 ipv6 stored : List String)
      → All IsMasked (parse_txt text lines)
        × All IsMasked (parse_ripe text ipv4 ipv6)
        × All IsMasked (parse_prefixes text stored)
  parsed-IsMasked lines ipv4 ipv6 stored =
      (parse_txt-IsMasked lines, parse_ripe-IsMasked ipv4 ipv6, parse_prefixes-IsMasked stored)
