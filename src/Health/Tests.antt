-- ===== src/Health/Tests.antt =====
-- A refresh of one output, with the speech service unmonitored.
use azan_dashboard.Prelude.{◌≡◌, refl, true, false, none, some, [], ◌∷◌, if◌then◌else◌}
use azan_dashboard.Dict.{lookup, insert, spread}
use azan_dashboard.Settings.{member}
use azan_dashboard.Health.{Env, unhealthy, init, stamp, targets_of, refresh, refresh_target}
use azan_dashboard.Health.Refresh.{lookup-refresh}
use azan_dashboard.Samples.{primary}

abbrev outside : Env
outside = record {
  now = 5;
  monitoring = ("tts", false) ∷ [];
  primary = some primary;
  backup = none;
  strategies = (record { id = "local"; hidden = false }) ∷ [];
  probe_speech = unhealthy "Service Unreachable";
  probe_source = λ s. record { healthy = true; message = "Online" };
  probe_strategy = λ id. record { healthy = true; message = "Online" };
}

refresh_sample :
    lookup "tts" (refresh outside "tts" false none)
    ≡ some (record { report = unhealthy "Monitoring Disabled"; last_checked = none })
unfolding refresh init stamp spread insert lookup refresh_target
refresh_sample = refl

lookup-refresh_sample : lookup "local" (refresh outside "all" false none) ≡ (
    if member "local" (targets_of outside "all")
    then some (stamp outside false (init outside none) "local")
    else lookup "local" (init outside none))
lookup-refresh_sample = lookup-refresh outside "all" false none "local"
