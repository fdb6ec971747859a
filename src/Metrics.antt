-- ===== src/Metrics.antt =====
-- internal/metrics/metrics.go: the registry, and the text of Handler. Its mutex makes each method one
-- step; Metrics.Server is what Serve sets up. Counters are whole numbers, and so are all
-- gauges that the program sets.
pub mod Lines
pub mod Server
use Prim.Native.Char.{code}
use Prim.Native.String.{[], ◌∷◌}
use mathlib.Core.List.{List}
use route_sync.Base.{
  ℕ, suc, ◌+◌, ◌≡◌, ap, ◌∙◌, true, once, str_eq, str_eq_iff, arith, String, ◌<>◌, Option, none,
  some, ◌==◌, if◌then◌else◌,
}
use route_sync.Base.Int.{ℤ, show_ℕ, show_ℤ}
use route_sync.Base.Maps
use route_sync.Base.Maps.{GoMap}

pub record Registry : Type 0 where
  pub counters : GoMap ℕ
  pub gauges : GoMap ℤ

-- New
abbrev pub new : Registry
new = record { counters = List.[]; gauges = List.[] }

abbrev pub count_of : Option ℕ → ℕ
count_of none = 0
count_of (some n) = n

-- The value of a counter.
abbrev pub counter : String → Registry → ℕ
counter name r = count_of (Maps.lookup name r.counters)

-- Inc: a missing counter reads as 0.
unfoldable pub inc : String → Registry → Registry
unfolding Maps.lookup Maps.insert
inc name r = record r {
  counters = Maps.insert name (suc (count_of (Maps.lookup name r.counters))) r.counters;
}

pub counter-inc :
    (name other : String) (r : Registry)
    → counter other (inc name r) ≡ counter other r + once (str_eq name other)
unfolding inc
counter-inc name other r =
    let same =
      λ (e : str_eq name other ≡ true). ap (λ n. counter n r) ((str_eq_iff name other).0 e) in
    ap count_of (Maps.lookup-insert name other (suc (counter name r)) r.counters)
    ∙ ground (arith, same)

-- Set
unfoldable pub set : String → ℤ → Registry → Registry
unfolding Maps.insert
set name value r = record r { gauges = Maps.insert name value r.gauges }

-- sanitize, here and in internal/health/health.go
unfoldable pub sanitize : String → String
sanitize [] = ""
sanitize (c ∷ s) =
    (if code c == 92
      then "\\\\"
      else if code c == 34
      then "\\\""
      else if code c == 10
      then "_"
      else c ∷ [])
    <> sanitize s

-- SetGroupGauge
unfoldable pub set_group_gauge : String → String → ℤ → Registry → Registry
unfolding set sanitize
set_group_gauge name group value r = set (name <> "{group=\"" <> sanitize group <> "\"}") value r

-- A line of Handler: `%s %.0f` for a counter, `%s %f` for a gauge.
abbrev pub counter_line : String × ℕ → String
counter_line e = "route_sync_" <> (e.0 <> (" " <> (show_ℕ e.1 <> "\n")))

abbrev pub gauge_line : String × ℤ → String
gauge_line e = "route_sync_" <> (e.0 <> (" " <> (show_ℤ e.1 <> ".000000\n")))

abbrev pub print_all : {A : Type 0} → (A → String) → List A → String
print_all line List.[] = ""
print_all line (List.◌∷◌ e es) = line e <> print_all line es

-- The body of Handler, for the orders in which Go ranges over the two maps.
unfoldable pub handler : (GoMap ℕ → GoMap ℕ) → (GoMap ℤ → GoMap ℤ) → Registry → String
handler counters gauges r =
    print_all counter_line (counters r.counters) <> print_all gauge_line (gauges r.gauges)
