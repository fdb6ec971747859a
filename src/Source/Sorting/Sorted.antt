-- ===== src/Source/Sorting/Sorted.antt =====
-- The order of what sortPrefixes of internal/source/source.go returns.
use route_sync.Base.{◌≡◌, refl, ◌∙◌, false, List, [], ◌∷◌, All, any, arith, Bool-cases, inl, inr}
use route_sync.Netip.{Prefix}
use route_sync.Source.Sorting.{prefix_less, insert_prefix, sort_prefixes, any-insert_prefix}
use route_sync.Source.Sorting.Commutes.{IsPlain, less_between, less_asym}

-- No element is less than one in front of it.
abbrev pub IsSorted : List Prefix → Type 0
IsSorted [] = Unit
IsSorted (p ∷ ps) = (any (λ q. prefix_less q p) ps ≡ false) × IsSorted ps

All-insert :
    (P : Prefix → Type 0) (p : Prefix) (qs : List Prefix)
    → P p
    → All P qs
    → All P (insert_prefix p qs)
unfolding insert_prefix
All-insert P p [] hp h = (hp, tt)
All-insert P p (q ∷ qs) hp (hq, h) = elim (Bool-cases (prefix_less q p)) [
  | inl e ↦ rw e (hq, All-insert P p qs hp h)
  | inr e ↦ rw e (hp, (hq, h))
]

pub All-sort : (P : Prefix → Type 0) (ps : List Prefix) → All P ps → All P (sort_prefixes ps)
unfolding sort_prefixes
All-sort P [] h = tt
All-sort P (p ∷ ps) (hp, h) = All-insert P p (sort_prefixes ps) hp (All-sort P ps h)

none_below :
    (x p : Prefix) (qs : List Prefix)
    → IsPlain x
    → IsPlain p
    → All IsPlain qs
    → prefix_less x p ≡ false
    → any (λ q. prefix_less q x) qs ≡ false
    → any (λ q. prefix_less q p) qs ≡ false
none_below x p [] hx hp h e f = refl
none_below x p (q ∷ qs) hx hp (hq, h) e f =
    ground (arith, e, f, less_between q p x hq hp hx, none_below x p qs hx hp h e)

IsSorted-insert :
    (p : Prefix) (qs : List Prefix)
    → IsPlain p
    → All IsPlain qs
    → IsSorted qs
    → IsSorted (insert_prefix p qs)
unfolding insert_prefix
IsSorted-insert p [] hp h s = (refl, tt)
IsSorted-insert p (q ∷ qs) hp (hq, h) (least, s) = elim (Bool-cases (prefix_less q p)) [
  | inl e ↦ rw e (
    any-insert_prefix (λ r. prefix_less r q) p qs ∙ ground (arith, least, less_asym q p hq hp e),
    IsSorted-insert p qs hp h s,
  )
  | inr e ↦ rw e (ground (arith, e, none_below q p qs hq hp h e least), (least, s))
]

pub IsSorted-sort : (ps : List Prefix) → All IsPlain ps → IsSorted (sort_prefixes ps)
unfolding sort_prefixes
IsSorted-sort [] h = tt
IsSorted-sort (p ∷ ps) (hp, h) =
    IsSorted-insert p (sort_prefixes ps) hp (All-sort IsPlain ps h) (IsSorted-sort ps h)
