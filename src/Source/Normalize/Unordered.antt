-- ===== src/Source/Normalize/Unordered.antt =====
-- Normalize of internal/source/source.go on two lists of one set of networks.
use route_sync.Base.{
  ◌≡◌, sym, ◌∙◌, ap, Bool, ◌&&◌, List, [], ◌∷◌, All, All-append, any, once, Bool-cases, inl, inr,
  if◌then◌else◌,
}
use route_sync.Netip.{Prefix, masked, is_valid, eqb_prefix}
use route_sync.Source.Sorting.Commutes.{IsPlain, masked-IsPlain}
use route_sync.Source.Sorting.Unordered.{sort_unordered}
use route_sync.Source.Aggregate.{aggregate}
use route_sync.Source.Normalize.{normalize_loop, normalize}
use route_sync.Source.Normalize.Laws.{count-normalize_loop}

pub normalize_loop-IsPlain :
    (ps valid : List Prefix) → All IsPlain valid → All IsPlain (normalize_loop ps valid)
unfolding normalize_loop
normalize_loop-IsPlain [] valid h = h
normalize_loop-IsPlain (p ∷ ps) valid h = elim (Bool-cases (is_valid p)) [
  | inr invalid ↦ rw invalid (normalize_loop-IsPlain ps valid h)
  | inl fine ↦ elim (Bool-cases (any (eqb_prefix (masked p)) valid)) [
    | inl old ↦ rw (fine, old) (normalize_loop-IsPlain ps valid h)
    | inr new ↦
        rw (fine, new)
          (normalize_loop-IsPlain ps _
            (All-append IsPlain valid (masked p ∷ []) h (masked-IsPlain p, tt)))
  ]
]

-- Normalize looks only at the set of networks it is given: two lists that have the same masked forms
-- of valid prefixes, in whatever order and however often, and with whatever host bits, lead to the
-- same list, with aggregation and without.
pub normalize_unordered :
    (ps qs : List Prefix) (aggregated : Bool)
    → ((q : Prefix)
        → any (λ p. is_valid p && eqb_prefix q (masked p)) ps
          ≡ any (λ p. is_valid p && eqb_prefix q (masked p)) qs)
    → normalize ps aggregated ≡ normalize qs aggregated
unfolding normalize
normalize_unordered ps qs aggregated h =
    ap (λ valid. if aggregated then aggregate valid else valid)
      (sort_unordered (normalize_loop ps []) (normalize_loop qs [])
        (normalize_loop-IsPlain ps [] tt) (normalize_loop-IsPlain qs [] tt)
        (λ q. count-normalize_loop ps q ∙ ap once (h q) ∙ sym (count-normalize_loop qs q)))
