-- ===== src/DayRows/Agreement.antt =====
-- buildPrayerRows of services/core/prayerTimeService.js: one row of its result.
use azan_dashboard.Prelude.{String, ◌≡◌, Option, arith}
use azan_dashboard.Result.{ok}
use azan_dashboard.Clock.{Luxon}
use azan_dashboard.Prayer.{Prayer, fajr, Day, Row, PrayerConfig}
use azan_dashboard.DayRows.{build_row, build_prayer_rows}

module _ (l : Luxon) (d : Day l.Iso) (cfg : PrayerConfig) (zone : String) where
  pub build_prayer_rows-row :
      (rows : Prayer → Option (Row l.Iso)) (p : Prayer)
      → build_prayer_rows l d cfg zone ≡ ok rows
      → build_row l d cfg zone p ≡ ok (rows p)
  unfolding build_prayer_rows
  build_prayer_rows-row rows fajr e = ground arith
  build_prayer_rows-row rows p e = ground arith
