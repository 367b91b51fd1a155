-- ===== src/Health.antt =====
-- services/system/healthCheck.js: the cache of the services' health and its refresh. The probes of
-- services, sources and outputs answer through `Env`; the ports and the parameters that a caller may
-- pass for one probe are left out.
pub mod Refresh
mod Tests
use azan_dashboard.Prelude.{
  ℕ, String, Bool, true, false, not, ◌&&◌, Option, none, some, List, [], ◌∷◌, ◌++◌, str_eq,
  if◌then◌else◌, map,
}
use azan_dashboard.Dict.{Dict, lookup, insert, spread}
use azan_dashboard.Prayer.{Source}

pub record Report : Type 0 where
  pub healthy : Bool
  pub message : String

-- An entry of `healthCache`; `last_checked` is an instant, or null.
pub record Status : Type 0 where
  pub report : Report
  pub last_checked : Option ℕ

abbrev pub Cache : Type 0
Cache = Dict Status

pub record Strategy : Type 0 where
  pub id : String
  pub hidden : Bool

pub record Env : Type 0 where
  pub now : ℕ
  -- `config.system.healthChecks`
  pub monitoring : Dict Bool
  pub primary : Option Source
  pub backup : Option Source
  pub strategies : List Strategy
  -- checkPythonService, healthCheck of a source's provider, and of a strategy; a failure is a report.
  pub probe_speech : Report
  pub probe_source : Source → Report
  pub probe_strategy : String → Report

abbrev pub unhealthy : String → Report
unhealthy message = record { healthy = false; message = message }

-- The visible strategies' entries, after the fixed ones
abbrev pub with_strategies : List Strategy → Cache → Cache
with_strategies [] cache = cache
with_strategies (s ∷ ss) cache = with_strategies ss (
    if s.hidden
    then cache
    else insert s.id (record { report = unhealthy "Initialising..."; last_checked = none }) cache)

abbrev unchecked : Bool → String → Status
unchecked healthy message = record {
  report = record { healthy = healthy; message = message };
  last_checked = none;
}

-- init
unfoldable pub init : Env → Option Cache → Cache
unfolding insert
init env (some cache) = cache
init env none = with_strategies env.strategies (
    ("api", unchecked true "Ready")
    ∷ ("local", unchecked true "Online")
    ∷ ("tts", unchecked false "Initialising...")
    ∷ ("primarySource", unchecked false "Initialising...")
    ∷ ("backupSource", unchecked false "Initialising...")
    ∷ [])

-- checkSource
abbrev pub check_primary : Env → Report
check_primary env = elim env.primary [
  | none ↦ unhealthy "Not Configured"
  | some s ↦ env.probe_source s
]

abbrev pub is_disabled : Source → Bool
is_disabled s = elim s.enabled [ none ↦ false | some on ↦ not on ]

abbrev pub check_backup : Env → Report
check_backup env = elim env.backup [
  | none ↦ unhealthy "Not Configured"
  | some s ↦ if is_disabled s then unhealthy "Disabled" else env.probe_source s
]

-- `healthChecks[target] === false`
abbrev pub is_unmonitored : Env → String → Bool
is_unmonitored env target = elim (lookup target env.monitoring) [ none ↦ false | some on ↦ not on ]

abbrev pub monitoring_disabled : String
monitoring_disabled = "Monitoring Disabled"

-- _refreshTarget
unfoldable pub refresh_target : Env → Bool → String → Report
unfolding lookup
refresh_target env force target =
    if str_eq target "api"
    then record { healthy = true; message = "Ready" }
    else if not force && is_unmonitored env target
    then unhealthy monitoring_disabled
    else if str_eq target "tts"
    then env.probe_speech
    else if str_eq target "primarySource"
    then check_primary env
    else if str_eq target "backupSource"
    then check_backup env
    else env.probe_strategy target

-- The entry of a target after its check: no time is stamped where no check ran.
unfoldable pub stamp : Env → Bool → Cache → String → Status
unfolding refresh_target
stamp env force cache target =
    let report = refresh_target env force target in
    record {
      report = report;
      last_checked =
          if str_eq report.message monitoring_disabled
          then elim (lookup target cache) [ none ↦ none | some old ↦ old.last_checked ]
          else some env.now;
    }

abbrev pub visible : List Strategy → List String
visible [] = []
visible (s ∷ ss) = let rest = visible ss in if s.hidden then rest else s.id ∷ rest

abbrev pub targets_of : Env → String → List String
targets_of env target =
    if str_eq target "all"
    then "api" ∷ "tts" ∷ "primarySource" ∷ "backupSource" ∷ visible env.strategies
    else target ∷ []

abbrev pub updates : Env → Bool → Cache → List String → Cache → Cache
updates env force cache [] done = done
updates env force cache (t ∷ ts) done =
    updates env force cache ts (insert t (stamp env force cache t) done)

-- refresh
unfoldable pub refresh : Env → String → Bool → Option Cache → Cache
unfolding init stamp spread insert
refresh env target force state =
    let cache = init env state in spread cache (updates env force cache (targets_of env target) [])
