-- ===== src/Dashboard/Tests.antt =====
-- Dashboard requests on the sample day.
use azan_dashboard.Prelude.{
  ℕ, ◌≤◌, ◌≡◌, refl, false, Option, none, some, [], map, length, ℤ, ◌⊎◌, ◌+ℤ◌, ◌*ℤ◌,
}
use azan_dashboard.Dict.{lookup, spread}
use azan_dashboard.Result.{ok, err, provider_failure}
use azan_dashboard.Clock.Utc.{utc}
use azan_dashboard.Prayer.{fajr, Row}
use azan_dashboard.Iqamah.{calculate_next_prayer, calculate_iqamah, rounded, minutes_to_add}
use azan_dashboard.DayRows.{build_prayer_rows, build_row, apply_overrides, rows_of}
use azan_dashboard.PrayerTimes.{
  Store, Times, absent, rejected, Env, get_prayer_times, from_disk, read_cache, fetch_remote,
  store_fetched,
}
use azan_dashboard.Dashboard.{
  Board, future, with_next, get_prayers_with_next, directional_loop, get_prayer_calendar_window,
}
use azan_dashboard.Dashboard.Next.{
  NextShown, get_prayers_with_next-NextShown, get_prayers_with_next-error,
}
use azan_dashboard.Dashboard.Calendar.{
  dates, days_shown, week_before, directional_loop-dates, get_prayer_calendar_window-default,
}
use azan_dashboard.Samples.{at, prayer_config, online}

abbrev empty_store : Store ℤ
empty_store = record { memory = none; disk = absent }

abbrev envs : ℕ → Env utc
envs n = online

abbrev offline : ℕ → Env utc
offline n = record online { fetch = λ source y. rejected (provider_failure "down") }

abbrev row : ℕ → Option (Row ℤ)
row h = some (record { start = at h 0; iqamah = some (at h 20) })

-- At one o'clock fajr is next.
abbrev night : Board utc
night = record {
  date = "1970-01-02";
  location = "UTC";
  source = "aladhan";
  cached = false;
  prayers =
      rows_of utc (row 5) (some (record { start = at 6 0; iqamah = none })) (row 12) (row 15)
        (row 18) (row 20);
  next_prayer = some (record { name = fajr; time = at 5 0; is_tomorrow = false });
}

get_prayers_with_next-NextShown_example :
    NextShown utc prayer_config envs "UTC" (at 1 0) empty_store night
unfolding get_prayers_with_next with_next get_prayer_times from_disk read_cache fetch_remote
    store_fetched lookup spread build_prayer_rows build_row apply_overrides calculate_iqamah rounded
    minutes_to_add ◌+ℤ◌ ◌*ℤ◌ calculate_next_prayer
get_prayers_with_next-NextShown_example =
    get_prayers_with_next-NextShown utc prayer_config envs "UTC" (at 1 0) empty_store night refl

get_prayers_with_next-error_sample :
    ((get_prayer_times utc prayer_config (offline 0) (at 1 0) empty_store).0
      ≡ err (provider_failure "down"))
    ⊎ ((t : Times ℤ) × ((get_prayer_times utc prayer_config (offline 0) (at 1 0) empty_store).0
          ≡ ok t)
        × (build_prayer_rows utc t.prayers prayer_config "UTC" ≡ err (provider_failure "down")))
unfolding get_prayers_with_next get_prayer_times from_disk read_cache fetch_remote
get_prayers_with_next-error_sample =
    get_prayers_with_next-error utc prayer_config offline "UTC" (at 1 0) empty_store
      (provider_failure "down") refl

directional_loop-dates_sample :
    (map
        (λ x. x.0)
        (directional_loop utc prayer_config envs "UTC" future 7 0 (at 1 0) empty_store).0
      ≡ dates utc prayer_config envs "UTC" future
          (length (directional_loop utc prayer_config envs "UTC" future 7 0 (at 1 0) empty_store).0)
          (at 1 0))
    × (length (directional_loop utc prayer_config envs "UTC" future 7 0 (at 1 0) empty_store).0 ≤ 7)
directional_loop-dates_sample =
    directional_loop-dates utc prayer_config envs "UTC" future 7 0 (at 1 0) empty_store

get_prayer_calendar_window-default_sample :
    get_prayer_calendar_window utc prayer_config envs "UTC" none (at 1 0) empty_store ≡ (
      spread []
          (days_shown utc prayer_config envs "UTC"
            (week_before utc prayer_config envs "UTC" (at 1 0))
            15
            0
            empty_store).0,
      (days_shown utc prayer_config envs "UTC"
          (week_before utc prayer_config envs "UTC" (at 1 0))
          15
          0
          empty_store).1,
    )
get_prayer_calendar_window-default_sample =
    get_prayer_calendar_window-default utc prayer_config envs "UTC" (at 1 0) empty_store
