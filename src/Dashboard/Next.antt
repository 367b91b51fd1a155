-- ===== src/Dashboard/Next.antt =====
-- getPrayersWithNext of services/core/prayerTimeService.js: the next prayer that is shown.
use azan_dashboard.Prelude.{ℕ, String, ◌≡◌, some, arith, Option-cases, inl, inr, ◌⊎◌, All, pos}
use mathlib.Core.Path.{subst}
use azan_dashboard.Result.{Result, ok, err, Error, Result-cases}
use azan_dashboard.Clock.{Luxon}
use azan_dashboard.Prayer.{PrayerConfig, prayer_names}
use azan_dashboard.Iqamah.{NextPrayer, calculate_next_prayer}
use azan_dashboard.Iqamah.Next.{
  IsFirst, HasPassed, calculate_next_prayer-IsFirst, calculate_next_prayer-none,
}
use azan_dashboard.DayRows.{build_prayer_rows}
use azan_dashboard.PrayerTimes.{Store, Times, Env, get_prayer_times}
use azan_dashboard.Dashboard.{Board, Rows, tomorrow_fajr, with_next, get_prayers_with_next}

module _ (l : Luxon) (cfg : PrayerConfig) (envs : ℕ → Env l) (zone : String)
    (reference : l.DateTime) (s : Store l.Iso) where
  open l use {Iso, DateTime, set_zone, plus_days}

  abbrev now : DateTime
  now = set_zone zone reference

  abbrev today : Result (Times Iso) × Store Iso
  today = get_prayer_times l cfg (envs 0) now s

  -- The next prayer of a board: the first of today's to come, or tomorrow's fajr if none is.
  pub data NextShown (b : Board l) : Type 0 where
    shown_today :
        (n : NextPrayer l)
        → b.next_prayer ≡ some n
        → IsFirst l now b.prayers prayer_names n
        → NextShown b
    shown_tomorrow :
        All (HasPassed l now b.prayers) prayer_names
        → b.next_prayer
          ≡ tomorrow_fajr l
              (get_prayer_times l cfg
                (envs 1)
                (plus_days (pos 1) now)
                (get_prayer_times l cfg (envs 0) now s).1).0
        → NextShown b

  with_next-NextShown :
      (t : Times Iso) (rows : Rows l) (b : Board l)
      → (with_next l cfg (envs 1) zone now t rows today.1).0 ≡ ok b
      → NextShown b
  unfolding with_next
  with_next-NextShown t rows b e =
      let same : rows ≡ b.prayers = ground arith in
      elim (Option-cases (calculate_next_prayer l rows now)) [
        | inr (n, found) ↦ shown_today n (ground arith) (
            subst (λ r. IsFirst l now r prayer_names n) same
              (calculate_next_prayer-IsFirst l now rows n found))
        | inl gone ↦
            shown_tomorrow
              (subst (λ r. All (HasPassed l now r) prayer_names) same
                ((calculate_next_prayer-none l now rows).0 gone))
              (ground arith)
      ]

  -- A dashboard reply shows the first of today's prayers that is to come, or, when all of them are
  -- missing or have started, the fajr that a request for tomorrow gives; that is none if tomorrow's
  -- request throws.
  pub get_prayers_with_next-NextShown :
      (b : Board l) → (get_prayers_with_next l cfg envs zone reference s).0 ≡ ok b → NextShown b
  unfolding get_prayers_with_next
  get_prayers_with_next-NextShown b e = elim (Result-cases today.0) [
    | inr (x, failed) ↦ absurd (ground arith)
    | inl (t, fetched) ↦ elim (Result-cases (build_prayer_rows l t.prayers cfg zone)) [
      | inr (x, failed) ↦ absurd (ground arith)
      | inl (rows, built) ↦ with_next-NextShown t rows b (ground arith)
    ]
  ]

  -- A dashboard reply fails only if today's request or one of today's rows does: whatever tomorrow's
  -- request does, a day that can be shown is shown.
  pub get_prayers_with_next-error :
      (x : Error)
      → (get_prayers_with_next l cfg envs zone reference s).0 ≡ err x
      → ((get_prayer_times l cfg (envs 0) (set_zone zone reference) s).0 ≡ err x)
        ⊎ ((t : Times Iso) × ((get_prayer_times l cfg (envs 0) (set_zone zone reference) s).0
              ≡ ok t)
            × (build_prayer_rows l t.prayers cfg zone ≡ err x))
  unfolding get_prayers_with_next with_next
  get_prayers_with_next-error x e = elim (Result-cases today.0) [
    | inr (y, failed) ↦ inl (ground arith)
    | inl (t, fetched) ↦ elim (Result-cases (build_prayer_rows l t.prayers cfg zone)) [
      | inr (y, failed) ↦ inr (t, fetched, ground arith)
      | inl (rows, built) ↦ absurd (ground arith)
    ]
  ]
