-- ===== src/Settings.antt =====
-- The automation part of the configuration, as config/schemas.js lets it through, and the targets
-- of a trigger, which services/core/schedulerService.js and automationService.js both compute.
pub mod Lead
use azan_dashboard.Prelude.{
  ℕ, String, Bool, true, false, Option, none, some, List, [], ◌∷◌, ◌++◌, ◌||◌, str_eq,
  if◌then◌else◌, ℤ, pos, ltb_ℤ,
}
use azan_dashboard.Dict.{Dict, lookup}
use azan_dashboard.Prayer.{Prayer, PrayerConfig}

pub data Event : Type 0 where
  pre_adhan adhan pre_iqamah iqamah : Event

-- triggerActionSchema
pub data Action : Type 0 where
  tts file url : Action

-- triggerEventSchema
pub record Trigger : Type 0 where
  pub enabled : Bool
  pub offset_minutes : Option ℕ
  pub type : Action
  pub path : Option String
  pub link : Option String
  pub targets : List String

-- An entry of `automation.outputs`
pub record OutputConfig : Type 0 where
  pub enabled : Bool
  pub lead_time_ms : ℤ

-- `automation.global`: the main switch, and the one of each event
pub record GlobalSwitches : Type 0 where
  pub enabled : Bool
  pub event_enabled : Event → Bool

pub record AutomationConfig : Type 0 where
  pub switches : Option GlobalSwitches
  pub base_url : Option String
  pub outputs : Dict OutputConfig
  pub triggers : Prayer → Option (Event → Option Trigger)

pub record Config : Type 0 where
  pub prayer : PrayerConfig
  pub open prayer use *
  pub automation : AutomationConfig

-- `config.automation?.triggers?.[prayer]?.[event]`
abbrev pub find_trigger : AutomationConfig → Prayer → Event → Option Trigger
find_trigger a p e = elim (a.triggers p) [ none ↦ none | some events ↦ events e ]

unfoldable pub member : String → List String → Bool
member x [] = false
member x (y ∷ ys) = str_eq y x || member x ys

-- `set.add(x)` for each of the list: the first occurrence keeps its place.
unfoldable pub add_all : List String → List String → List String
unfolding member
add_all set [] = set
add_all set (x ∷ xs) = add_all (if member x set then set else set ++ x ∷ []) xs

-- `new Set([...configuredTargets, "browser"])`
unfoldable pub target_set : List String → List String
unfolding add_all
target_set configured = add_all [] (configured ++ "browser" ∷ [])

-- `browser` is on unless it is switched off; any other target must be switched on.
unfoldable pub is_enabled : Dict OutputConfig → String → Bool
unfolding lookup
is_enabled outputs id =
    if str_eq id "browser"
    then elim (lookup id outputs) [ none ↦ true | some o ↦ o.enabled ]
    else elim (lookup id outputs) [ none ↦ false | some o ↦ o.enabled ]

-- `outputConfig?.leadTimeMs || 0`
unfoldable pub lead_time : Dict OutputConfig → String → ℤ
unfolding lookup
lead_time outputs id = elim (lookup id outputs) [ none ↦ pos 0 | some o ↦ o.lead_time_ms ]

-- One round of either loop's maximum.
unfoldable pub raise_lead : Dict OutputConfig → ℤ → String → ℤ
unfolding is_enabled lead_time
raise_lead outputs lead id =
    if is_enabled outputs id
    then (if ltb_ℤ lead (lead_time outputs id) then lead_time outputs id else lead)
    else lead

-- schedulerService.js, the loop of getMaxLeadTime
unfoldable pub max_lead_from : Dict OutputConfig → ℤ → List String → ℤ
unfolding raise_lead
max_lead_from outputs lead [] = lead
max_lead_from outputs lead (id ∷ ids) = max_lead_from outputs (raise_lead outputs lead id) ids

unfoldable pub get_max_lead_time : AutomationConfig → Prayer → Event → ℤ
unfolding max_lead_from target_set
get_max_lead_time a p e = elim (find_trigger a p e) [
  | none ↦ pos 0
  | some t ↦ if t.enabled then max_lead_from a.outputs (pos 0) (target_set t.targets) else pos 0
]

-- automationService.js: `{ targetId, leadTime }`, and the state of the loop of _getActiveTargets
pub record Target : Type 0 where
  pub id : String
  pub lead : ℤ

pub record ActiveTargets : Type 0 where
  pub targets : List Target
  pub master_lead : ℤ

unfoldable pub activate : Dict OutputConfig → ActiveTargets → String → ActiveTargets
unfolding is_enabled lead_time
activate outputs a id =
    if is_enabled outputs id
    then record {
      targets = a.targets ++ (record { id = id; lead = lead_time outputs id }) ∷ [];
      master_lead =
          if ltb_ℤ a.master_lead (lead_time outputs id)
          then lead_time outputs id
          else a.master_lead;
    }
    else a

unfoldable pub activate_all : Dict OutputConfig → ActiveTargets → List String → ActiveTargets
unfolding activate
activate_all outputs a [] = a
activate_all outputs a (id ∷ ids) = activate_all outputs (activate outputs a id) ids

unfoldable pub get_active_targets : AutomationConfig → Trigger → ActiveTargets
unfolding activate_all target_set
get_active_targets a t =
    activate_all a.outputs (record { targets = []; master_lead = pos 0 }) (target_set t.targets)
