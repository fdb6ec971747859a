-- ===== src/Tests/Stored.antt =====
-- A group whose source fails after its prefixes have been stored.
use route_sync.Base.{◌≡◌, refl, true, some, List, [], ◌∷◌, All}
use route_sync.Base.Result.{ok, err}
use route_sync.Netip.{Prefix}
use route_sync.Metrics
use route_sync.Source.Normalize.{normalize}
use route_sync.Source.Normalize.Twice.{HasMasked, normalize_twice}
use route_sync.State.{path, save_group}
use route_sync.App.World.{World, AppState, record_metric}
use route_sync.App.Plan.{fetch_source, has_provider, group_input, build_input}
use route_sync.App.Run.Fallback.{build_input-fallback}
use route_sync.Tests.Machine.{
  Machine, net_text, world, config, zone, files, files-IsFileSystem, first_half, second_half,
  empty_machine,
}

abbrev down : World
down = record world { fetch_txt = λ url timeout s. (err "no route to host", s) }

abbrev halves : List Prefix
halves = first_half ∷ second_half ∷ []

halves_valid : All HasMasked halves
unfolding route_sync.Netip.is_valid route_sync.Netip.masked
halves_valid = (λ v. refl, (λ v. refl, tt))

normalize_twice_example : normalize (normalize halves true) true ≡ normalize halves true
normalize_twice_example = normalize_twice halves true halves_valid

abbrev stored : Machine
stored =
    (save_group files net_text "/var/lib/route-sync" "zone" "txt" (normalize halves true)
      empty_machine).1

stored_run :
    save_group files net_text "/var/lib/route-sync" "zone" "txt"
      (normalize halves true)
      empty_machine
    ≡ (ok tt, stored)
unfolding save_group normalize route_sync.Source.Aggregate.aggregate
    route_sync.Source.Sorting.sort_prefixes route_sync.Netip.is_valid route_sync.Netip.eqb_prefix
    route_sync.Netip.masked route_sync.Source.Sorting.prefix_less route_sync.Netip.less
    route_sync.Source.Aggregate.merge_one_pass route_sync.Source.Aggregate.remove_covered
    route_sync.Netip.is4 route_sync.Netip.bits route_sync.Netip.contains
    route_sync.Source.Aggregate.merge_pair route_sync.Source.Aggregate.parent_of
    route_sync.Source.Aggregate.remasked
stored_run = refl

readable :
    All (λ p. net_text.parse_prefix (net_text.prefix_string p) ≡ some p) (normalize halves true)
unfolding normalize route_sync.Source.Aggregate.aggregate route_sync.Source.Sorting.sort_prefixes
    route_sync.Netip.is_valid route_sync.Netip.eqb_prefix route_sync.Netip.masked
    route_sync.Source.Sorting.prefix_less route_sync.Netip.less
    route_sync.Source.Aggregate.merge_one_pass route_sync.Source.Aggregate.remove_covered
    route_sync.Netip.is4 route_sync.Netip.bits route_sync.Netip.contains
    route_sync.Source.Aggregate.merge_pair route_sync.Source.Aggregate.parent_of
    route_sync.Source.Aggregate.remasked
readable = (refl, tt)

abbrev later : AppState Machine
later = record { outside = stored; registry = record { counters = []; gauges = [] } }

failing : fetch_source down zone config later ≡ (err "no route to host", later)
unfolding fetch_source
failing = refl

zone_provider : has_provider down zone ≡ true
unfolding has_provider
zone_provider = refl

unread :
    files.read_file (path files net_text "/var/lib/route-sync" "zone") stored
    ≡ ((files.read_file (path files net_text "/var/lib/route-sync" "zone") stored).0, stored)
unread = refl

build_input-fallback_example :
    build_input down config zone later
    ≡ group_input down zone config true
        (normalize halves true)
        (record_metric (Metrics.inc "source_fetch_failure_total") later)
build_input-fallback_example =
    build_input-fallback down files-IsFileSystem config zone halves "no route to host" empty_machine
      stored later later zone_provider halves_valid readable stored_run failing unread
