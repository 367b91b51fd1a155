-- ===== src/PrayerTimes/Tests.antt =====
-- Runs of services/core/prayerTimeService.js with the sample configuration.
use azan_dashboard.Prelude.{◌≡◌, refl, true, false, none, ℤ, inl, ◌⊎◌, arith, eq_iff}
use azan_dashboard.Dict.{lookup, spread}
use azan_dashboard.Result.{ok, err, provider_validation, provider_failure, missing_date}
use azan_dashboard.Clock.Utc.{utc}
use azan_dashboard.DayRows.{apply_overrides}
use azan_dashboard.PrayerTimes.{
  Store, absent, Times, Env, rejected, get_prayer_times, from_disk, read_cache, fetch_remote,
  store_fetched, force_refresh,
}
use azan_dashboard.PrayerTimes.Hits.{get_prayer_times-again}
use azan_dashboard.PrayerTimes.Memory.{forget, get_prayer_times-IsCoherent, get_prayer_times-forget}
use azan_dashboard.PrayerTimes.Failover.{
  IsFetched, get_prayer_times-error, get_prayer_times-IsFetched, get_prayer_times-validation,
  force_refresh-IsFetched,
}
use azan_dashboard.Samples.{at, day, prayer_config, online}

abbrev empty_store : Store ℤ
empty_store = record { memory = none; disk = absent }

abbrev reply : Times ℤ
reply = record {
  date = "1970-01-02";
  source = "aladhan";
  last_fetched = at 1 0;
  cached = false;
  prayers = apply_overrides utc day prayer_config;
}

-- The primary throws a validation error.
abbrev invalid : Env utc
invalid = record online { fetch = λ source y. rejected (provider_validation "no such city") }

-- Neither source answers.
abbrev offline : Env utc
offline = record online { fetch = λ source y. rejected (provider_failure "down") }

get_prayer_times_sample :
    (get_prayer_times utc prayer_config online (at 1 0) empty_store).0 ≡ ok reply
unfolding get_prayer_times from_disk read_cache fetch_remote store_fetched lookup spread
get_prayer_times_sample = refl

get_prayer_times-again_example :
    get_prayer_times utc prayer_config offline
      (at 1 0)
      (get_prayer_times utc prayer_config online (at 1 0) empty_store).1
    ≡ (
      ok (record reply { cached = true }),
      (get_prayer_times utc prayer_config online (at 1 0) empty_store).1,
    )
get_prayer_times-again_example =
    get_prayer_times-again utc prayer_config online offline (at 1 0) empty_store reply refl
      get_prayer_times_sample

abbrev started : Store ℤ
started = (get_prayer_times utc prayer_config online (at 1 0) empty_store).1

get_prayer_times-forget_sample :
    ((get_prayer_times utc prayer_config online (at 1 0) started).0
      ≡ (get_prayer_times utc prayer_config online (at 1 0) (forget utc started)).0)
    × ((get_prayer_times utc prayer_config online (at 1 0) started).1.disk
        ≡ (get_prayer_times utc prayer_config online (at 1 0) (forget utc started)).1.disk)
get_prayer_times-forget_sample =
    get_prayer_times-forget utc prayer_config online (at 1 0) started
      (get_prayer_times-IsCoherent utc prayer_config online (at 1 0) empty_store (inl refl))

get_prayer_times-IsFetched_example : IsFetched utc prayer_config online (at 1 0) empty_store reply
get_prayer_times-IsFetched_example =
    get_prayer_times-IsFetched utc prayer_config online (at 1 0) empty_store reply refl
      get_prayer_times_sample

get_prayer_times-error_sample :
    ((get_prayer_times utc prayer_config offline (at 1 0) empty_store).1.disk ≡ absent)
    ⊎ (provider_failure "down" ≡ missing_date "1970-01-02")
unfolding get_prayer_times from_disk read_cache fetch_remote
get_prayer_times-error_sample =
    get_prayer_times-error utc prayer_config offline (at 1 0) empty_store (provider_failure "down")
      refl

get_prayer_times-validation_sample :
    ((get_prayer_times utc prayer_config invalid (at 1 0) empty_store).0
      ≡ err (provider_validation "no such city"))
    × ((get_prayer_times utc prayer_config invalid (at 1 0) empty_store).1.disk ≡ absent)
get_prayer_times-validation_sample =
    get_prayer_times-validation utc prayer_config invalid (at 1 0) empty_store "no such city"
      (ground (arith, eq_iff "aladhan" "")) refl refl refl

force_refresh-IsFetched_sample :
    (reply.cached ≡ false)
    × IsFetched utc prayer_config online (at 1 0) (record { memory = none; disk = absent }) reply
unfolding force_refresh get_prayer_times from_disk read_cache fetch_remote store_fetched lookup
    spread
force_refresh-IsFetched_sample =
    force_refresh-IsFetched utc prayer_config online started reply refl refl
