-- ===== src/Prayer.antt =====
-- The data that the components share: prayers, a day's times, and the typed configuration that
-- config/schemas.js lets through.
use azan_dashboard.Prelude.{String, Bool, ℤ, Option, List, [], ◌∷◌}

-- The names of PRAYER_NAMES.
pub data Prayer : Type 0 where
  fajr sunrise dhuhr asr maghrib isha : Prayer

abbrev pub prayer_names : List Prayer
prayer_names = fajr ∷ sunrise ∷ dhuhr ∷ asr ∷ maghrib ∷ isha ∷ []

-- prayerSettingSchema; offsets and rounding are whole minutes.
pub record PrayerSetting : Type 0 where
  pub iqamah_offset : ℤ
  pub round_to : ℤ
  pub fixed_time : Option String
  pub iqamah_override : Bool

-- A provider's entry for one date: `none` is a missing, null or empty time, which the code does not
-- tell apart, and a missing `iqamah` object is one without entries.
pub record Day (Iso : Type 0) : Type 0 where
  pub time : Prayer → Option Iso
  pub iqamah : Prayer → Option Iso

-- A dashboard row, `{ start, iqamah }`.
pub record Row (Iso : Type 0) : Type 0 where
  pub start : Iso
  pub iqamah : Option Iso

-- `sources.primary` and `sources.backup`; an absent `enabled` is `none`.
pub record Source : Type 0 where
  pub type : String
  pub enabled : Option Bool

-- The parts of the configuration that prayer times depend on.
pub record PrayerConfig : Type 0 where
  pub timezone : String
  pub prayers : Prayer → Option PrayerSetting
  pub primary : Source
  pub backup : Option Source
