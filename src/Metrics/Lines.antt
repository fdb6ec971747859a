-- ===== src/Metrics/Lines.antt =====
-- The lines of Handler of internal/metrics/metrics.go.
use Prim.Native.Char.{Char, code}
use Prim.Native.String.{[], ◌∷◌}
use mathlib.Core.List.{List}
use route_sync.Base.{
  ℕ, ◌+◌, ◌≡◌, refl, ◌∙◌, String, ◌<>◌, Bool, true, false, ◌==◌, count, any_of_count, length, any,
  arith, if◌then◌else◌,
}
use route_sync.Base.Int.{ℤ, show_ℕ, show_ℤ}
use route_sync.Base.Maps
use route_sync.Base.Maps.{GoMap, IsOrder}
use route_sync.Base.Text.{has_any, count_any}
use route_sync.Base.Text.Fields.{
  IsFree, has_any-append, count_any-append, count_any-IsFree, show_ℕ-IsFree, show_ℤ-IsFree,
}
use route_sync.Metrics.{Registry, inc, set, sanitize, counter_line, gauge_line, print_all, handler}

abbrev pub is_newline : ℕ → Bool
is_newline c = c == 10

escaped-IsFree :
    (c : Char) (backslash quote newline : Bool)
    → newline ≡ is_newline (code c)
    → IsFree is_newline
        (if backslash then "\\\\" else if quote then "\\\"" else if newline then "_" else c ∷ [])
unfolding has_any
escaped-IsFree c true q n h = refl
escaped-IsFree c false true n h = refl
escaped-IsFree c false false true h = refl
escaped-IsFree c false false false h = ground (arith, h)

-- sanitize lets no newline pass.
pub sanitize-IsFree : (s : String) → IsFree is_newline (sanitize s)
unfolding sanitize has_any
sanitize-IsFree [] = refl
sanitize-IsFree (c ∷ s) =
    has_any-append is_newline
      (if code c == 92
        then "\\\\"
        else if code c == 34
        then "\\\""
        else if code c == 10
        then "_"
        else c ∷ [])
      (sanitize s)
    ∙ ground (
      arith,
      escaped-IsFree c (code c == 92) (code c == 34) (code c == 10) refl,
      sanitize-IsFree s,
    )

pub IsFree-append :
    (a b : String) → IsFree is_newline a → IsFree is_newline b → IsFree is_newline (a <> b)
IsFree-append a b h k = has_any-append is_newline a b ∙ ground (arith, h, k)

group_label-IsFree : IsFree is_newline "{group=\""
unfolding has_any
group_label-IsFree = refl

pub label_end-IsFree : IsFree is_newline "\"}"
unfolding has_any
label_end-IsFree = refl

pub group_gauge-IsFree :
    (name group : String)
    → IsFree is_newline name
    → IsFree is_newline (name <> "{group=\"" <> sanitize group <> "\"}")
group_gauge-IsFree name group h = IsFree-append _ _ h (
    IsFree-append _ _ group_label-IsFree
      (IsFree-append _ _ (sanitize-IsFree group) label_end-IsFree))

-- No name of a metric holds a newline.
abbrev pub IsUnbroken : Registry → Type 0
IsUnbroken r =
    (any (λ (e : String × ℕ). has_any is_newline e.0) r.counters ≡ false)
    × (any (λ (e : String × ℤ). has_any is_newline e.0) r.gauges ≡ false)

any-insert :
    {V : Type 0} (name : String) (v : V) (m : GoMap V)
    → IsFree is_newline name
    → any (λ (e : String × V). has_any is_newline e.0) m ≡ false
    → any (λ (e : String × V). has_any is_newline e.0) (Maps.insert name v m) ≡ false
unfolding Maps.insert
any-insert name v List.[] h k = ground (arith, h)
any-insert name v (List.◌∷◌ (j, w) m) h k = ground (arith, h, k, any-insert name v m)

pub inc-IsUnbroken :
    (name : String) (r : Registry) → IsFree is_newline name → IsUnbroken r → IsUnbroken (inc name r)
unfolding inc
inc-IsUnbroken name r h (c, g) = (any-insert name _ r.counters h c, g)

pub set-IsUnbroken :
    (name : String) (v : ℤ) (r : Registry)
    → IsFree is_newline name
    → IsUnbroken r
    → IsUnbroken (set name v r)
unfolding set
set-IsUnbroken name v r h (c, g) = (c, any-insert name v r.gauges h g)

prefix_unbroken : count_any is_newline "route_sync_" ≡ 0
unfolding count_any
prefix_unbroken = refl

space_unbroken : count_any is_newline " " ≡ 0
unfolding count_any
space_unbroken = refl

-- A line has the one newline of its end.
one_line :
    (name value end : String)
    → IsFree is_newline name
    → IsFree is_newline value
    → count_any is_newline end ≡ 1
    → count_any is_newline ("route_sync_" <> (name <> (" " <> (value <> end)))) ≡ 1
unfolding count_any
one_line name value end h k e = omega (
  arith,
  count_any-append is_newline "route_sync_" (name <> (" " <> (value <> end))),
  count_any-append is_newline name (" " <> (value <> end)),
  count_any-append is_newline " " (value <> end),
  count_any-append is_newline value end,
  count_any-IsFree is_newline name h,
  count_any-IsFree is_newline value k,
  prefix_unbroken,
  space_unbroken,
  e,
)

print_all-lines :
    {A : Type 0} (line : A → String) (bad : A → Bool) (es : List A)
    → ((e : A) → bad e ≡ false → count_any is_newline (line e) ≡ 1)
    → any bad es ≡ false
    → count_any is_newline (print_all line es) ≡ length es
unfolding count_any
print_all-lines line bad List.[] h k = refl
print_all-lines line bad (List.◌∷◌ e es) h k =
    count_any-append is_newline (line e) (print_all line es)
    ∙ ground (arith, h e, print_all-lines line bad es h, k)

length_of_order : {V : Type 0} (m : GoMap V) → count (λ e. true) m ≡ length m
length_of_order List.[] = refl
length_of_order (List.◌∷◌ e m) = omega (arith, length_of_order m)

counter_line-lines :
    (e : String × ℕ) → IsFree is_newline e.0 → count_any is_newline (counter_line e) ≡ 1
unfolding count_any has_any
counter_line-lines e h = one_line e.0 (show_ℕ e.1) "\n" h (show_ℕ-IsFree is_newline e.1 refl) refl

gauge_line-lines :
    (e : String × ℤ) → IsFree is_newline e.0 → count_any is_newline (gauge_line e) ≡ 1
unfolding count_any has_any
gauge_line-lines e h =
    one_line e.0 (show_ℤ e.1) ".000000\n" h (show_ℤ-IsFree is_newline e.1 refl refl) refl

-- What Handler prints of a registry whose names hold no newline has one line for each metric,
-- whatever the orders of the maps.
pub handler-lines :
    (counters : GoMap ℕ → GoMap ℕ) (gauges : GoMap ℤ → GoMap ℤ)
    → IsOrder counters
    → IsOrder gauges
    → (r : Registry) → IsUnbroken r
    → count_any is_newline (handler counters gauges r) ≡ length r.counters + length r.gauges
unfolding handler
handler-lines counters gauges hc hg r (c, g) =
    let names = λ (e : String × ℕ). has_any is_newline e.0 in
    let labels = λ (e : String × ℤ). has_any is_newline e.0 in
    count_any-append is_newline (print_all counter_line (counters r.counters))
      (print_all gauge_line (gauges r.gauges))
    ∙ omega (
      arith,
      print_all-lines counter_line names (counters r.counters) counter_line-lines
          (any_of_count names _ _ (hc names r.counters) ∙ c),
      print_all-lines gauge_line labels (gauges r.gauges) gauge_line-lines
          (any_of_count labels _ _ (hg labels r.gauges) ∙ g),
      hc (λ e. true) r.counters,
      hg (λ e. true) r.gauges,
      length_of_order r.counters,
      length_of_order r.gauges,
      length_of_order (counters r.counters),
      length_of_order (gauges r.gauges),
    )
