-- ===== src/Samples.antt =====
-- A small configuration, a day and the outside world, for the tests of several modules. The clock is
-- `utc`; the day is 1970-01-02.
use azan_dashboard.Prelude.{ℕ, ◌+◌, ◌*◌, true, false, none, some, [], ◌∷◌, ℤ, pos}
use azan_dashboard.Dict.{Dict}
use azan_dashboard.Clock.Utc.{utc}
use azan_dashboard.Prayer.{
  Prayer, fajr, sunrise, dhuhr, asr, maghrib, isha, PrayerSetting, Day, Source, PrayerConfig,
}
use azan_dashboard.Settings.{file, Trigger, AutomationConfig, Config}
use azan_dashboard.PrayerTimes.{returned, Env}
use azan_dashboard.Scheduler.{Env as SchedulerEnv}
use azan_dashboard.Automation.{Env as AutomationEnv, generated}

-- The instant of an hour and a minute of the day
abbrev pub at : ℕ → ℕ → ℤ
at h m = pos (86400000 + h * 3600000 + m * 60000)

-- Sixteen minutes after the prayer, on the next multiple of five, whatever the provider says
abbrev pub setting : PrayerSetting
setting = record {
  iqamah_offset = pos 16;
  round_to = pos 5;
  fixed_time = none;
  iqamah_override = true;
}

abbrev pub primary : Source
primary = record { type = "aladhan"; enabled = none }

abbrev pub backup : Source
backup = record { type = "mymasjid"; enabled = none }

abbrev pub prayer_config : PrayerConfig
prayer_config = record {
  timezone = "UTC";
  prayers = λ p. some setting;
  primary = primary;
  backup = some backup;
}

abbrev hour_of : Prayer → ℕ
hour_of fajr = 5
hour_of sunrise = 6
hour_of dhuhr = 12
hour_of asr = 15
hour_of maghrib = 18
hour_of isha = 20

abbrev pub day : Day ℤ
day = record { time = λ p. some (at (hour_of p) 0); iqamah = λ p. none }

abbrev pub entries : Dict (Day ℤ)
entries = ("1970-01-02", day) ∷ []

-- Every provider answers with the day, and the file can be written.
abbrev pub online : Env utc
online = record {
  now = at 1 0;
  fetch = λ source y. returned (some entries);
  write_ok = true;
  unlink_ok = true;
}

abbrev pub trigger : Trigger
trigger = record {
  enabled = true;
  offset_minutes = some 10;
  type = file;
  path = some "custom/azan.mp3";
  link = none;
  targets = "local" ∷ "voicemonkey" ∷ "local" ∷ [];
}

-- Two outputs of which one is on, with a lead time of two seconds
abbrev pub automation_config : AutomationConfig
automation_config = record {
  switches = some (record { enabled = true; event_enabled = λ e. true });
  base_url = none;
  outputs =
      ("local", record { enabled = true; lead_time_ms = pos 2000 })
      ∷ ("voicemonkey", record { enabled = false; lead_time_ms = pos 9000 })
      ∷ [];
  triggers = λ p. some (λ e. some trigger);
}

abbrev pub config : Config
config = record { prayer = prayer_config; automation = automation_config }

-- One o'clock; node-schedule accepts every job.
abbrev pub scheduling : SchedulerEnv utc
scheduling = record { now = at 1 0; accepts = λ t. true }

-- Every audio file is there, and every strategy has its default timeout.
abbrev pub speakers : AutomationEnv
speakers = record { speech = λ p e. generated; is_present = λ s. true; timeout_of = λ id. some 0 }
