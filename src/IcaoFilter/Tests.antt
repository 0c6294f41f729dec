-- ===== src/IcaoFilter/Tests.antt =====
-- The filter at concrete inputs.
use hpr_readsb.Base.{ℕ, arith, ◌≡◌, ◌≢◌, true, some, ◌||◌}
use hpr_readsb.IcaoFilter.{Filter, init, empty, active, icao_filter_add, icao_filter_test}
use hpr_readsb.IcaoFilter.{icao_filter_expire}
use hpr_readsb.IcaoFilter.Chains.{contains}
use hpr_readsb.IcaoFilter.Grow.{IsFilter}
use hpr_readsb.IcaoFilter.Laws.{
  Adds, icao_filter_add-Adds, init-IsFilter, init-room, icao_filter_test-contains,
}
use hpr_readsb.IcaoFilter.Insert.{inactive}
use hpr_readsb.IcaoFilter.Expiry.{
  icao_filter_add-icao_filter_expire, icao_filter_expire-icao_filter_test,
}

abbrev sample : ℕ
sample = 0x4840d6

sample_proper : sample ≢ empty
sample_proper = λ e. omega arith

icao_filter_add-Adds_example :
    (g : Filter) × (icao_filter_add init sample ≡ some g) × Adds init sample g
icao_filter_add-Adds_example =
    icao_filter_add-Adds init sample init-IsFilter sample_proper init-room

icao_filter_test-contains_example :
    icao_filter_test init sample
    ≡ (contains (active init) sample || contains (inactive init) sample)
icao_filter_test-contains_example =
    icao_filter_test-contains init sample init-IsFilter sample_proper

icao_filter_expire-icao_filter_test_example :
    (g : Filter) × (icao_filter_expire init ≡ some g)
    × IsFilter g
    × ((y : ℕ) → y ≢ empty → icao_filter_test g y ≡ contains (active init) y)
icao_filter_expire-icao_filter_test_example = icao_filter_expire-icao_filter_test init init-IsFilter

icao_filter_add-icao_filter_expire_example :
    (g : Filter) × (h : Filter) × (icao_filter_add init sample ≡ some g)
    × (icao_filter_test g sample ≡ true)
    × (icao_filter_expire g ≡ some h)
    × (icao_filter_test h sample ≡ true)
icao_filter_add-icao_filter_expire_example =
    icao_filter_add-icao_filter_expire init sample init-IsFilter sample_proper init-room
