-- ===== src/DayRows.antt =====
-- services/core/prayerTimeService.js, applyOverrides and buildPrayerRows: a day's iqamah times as
-- the configuration overrides them, and the rows that the dashboard shows.
pub mod Agreement
use azan_dashboard.Prelude.{Bool, true, false, Option, none, some, String}
use azan_dashboard.Result.{Result, ok, err, ◌>>=◌}
use azan_dashboard.Clock.{Luxon}
use azan_dashboard.Prayer.{
  Prayer, fajr, sunrise, dhuhr, asr, maghrib, isha, PrayerSetting, Day, Row, PrayerConfig,
}
use azan_dashboard.Iqamah.{calculate_iqamah}

abbrev pub is_sunrise : Prayer → Bool
is_sunrise sunrise = true
is_sunrise _ = false

module _ (l : Luxon) where
  open l use {Iso}

  -- One round of the loop: a failed calculation leaves the provider's entry.
  abbrev pub override_one : Option PrayerSetting → Option Iso → String → Option Iso → Option Iso
  override_one none start zone given = given
  override_one (some s) none zone given = given
  override_one (some s) (some iso) zone given = elim s.iqamah_override [
    | false ↦ given
    | true ↦ elim (calculate_iqamah l (some iso) (some s) zone) [ ok i ↦ some i | err e ↦ given ]
  ]

  unfoldable pub apply_overrides : Day Iso → PrayerConfig → Day Iso
  apply_overrides d cfg = record d {
    iqamah = λ p. elim (is_sunrise p) [
      | true ↦ d.iqamah p
      | false ↦ override_one (cfg.prayers p) (d.time p) cfg.timezone (d.iqamah p)
    ];
  }

  -- The iqamah of a row: none at sunrise, the day's own, or a calculated one.
  abbrev pub row_iqamah :
      Bool → Option Iso → Option PrayerSetting → Iso → String → Result (Option Iso)
  row_iqamah true given settings start zone = ok none
  row_iqamah false (some i) settings start zone = ok (some i)
  row_iqamah false none none start zone = ok none
  row_iqamah false none (some s) start zone = do
    i ← calculate_iqamah l (some start) (some s) zone
    ok (some i)

  -- `none` where the time is missing and no row is made
  unfoldable pub build_row : Day Iso → PrayerConfig → String → Prayer → Result (Option (Row Iso))
  build_row d cfg zone p = elim (d.time p) [
    | none ↦ ok none
    | some start ↦ do
      i ← row_iqamah (is_sunrise p) (d.iqamah p) (cfg.prayers p) start zone
      ok (some (record { start = start; iqamah = i }))
  ]

  abbrev pub rows_of : (f s d a m i : Option (Row Iso)) → Prayer → Option (Row Iso)
  rows_of f s d a m i fajr = f
  rows_of f s d a m i sunrise = s
  rows_of f s d a m i dhuhr = d
  rows_of f s d a m i asr = a
  rows_of f s d a m i maghrib = m
  rows_of f s d a m i isha = i

  -- PRAYER_NAMES.forEach; the first calculation that throws ends the loop
  unfoldable pub build_prayer_rows :
      Day Iso → PrayerConfig → String → Result (Prayer → Option (Row Iso))
  build_prayer_rows d cfg zone = do
    f ← build_row d cfg zone fajr
    s ← build_row d cfg zone sunrise
    u ← build_row d cfg zone dhuhr
    a ← build_row d cfg zone asr
    m ← build_row d cfg zone maghrib
    i ← build_row d cfg zone isha
    ok (rows_of f s u a m i)
