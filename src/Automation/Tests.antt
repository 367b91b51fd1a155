-- ===== src/Automation/Tests.antt =====
-- Runs of services/core/automationService.js with the sample configuration.
use azan_dashboard.Prelude.{All}
use azan_dashboard.Clock.Utc.{utc, utc-HasMillis}
use azan_dashboard.Prayer.{dhuhr}
use azan_dashboard.Settings.{adhan}
use azan_dashboard.Scheduler.{Due}
use azan_dashboard.Automation.{trigger_event}
use azan_dashboard.Automation.OnTime.{IsOnTime, trigger_event-IsOnTime}
use azan_dashboard.Automation.Once.{IsDistinct, ids, trigger_event-IsDistinct}
use azan_dashboard.Samples.{at, automation_config, speakers}

abbrev noon : Due utc
noon = record { at = at 12 0; prayer = dhuhr; event = adhan }

trigger_event-IsOnTime_example :
    All
      (IsOnTime utc utc-HasMillis automation_config speakers noon)
      (trigger_event automation_config speakers dhuhr adhan).0
trigger_event-IsOnTime_example =
    trigger_event-IsOnTime utc utc-HasMillis automation_config speakers noon

trigger_event-IsDistinct_example :
    IsDistinct (ids (trigger_event automation_config speakers dhuhr adhan).0)
trigger_event-IsDistinct_example = trigger_event-IsDistinct automation_config speakers dhuhr adhan
