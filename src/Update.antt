-- ===== src/Update.antt =====
-- services/system/configurationWorkflowService.js executeUpdate, with validateConfigSource of
-- services/core/validationService.js: how a new configuration is checked, saved and put into effect.
-- What the services do is recorded as a list of steps; their answers come from `Env`.
pub mod Outcomes
mod Tests
use azan_dashboard.Prelude.{
  String, Bool, true, false, not, ◌&&◌, ◌||◌, Option, none, some, List, [], ◌∷◌, ◌++◌,
  if◌then◌else◌,
}
use azan_dashboard.Prayer.{Source}

pub data Role : Type 0 where
  primary backup : Role

-- Why an update throws: the provider is not registered, the source's schema or the coordinates are
-- refused, the provider's own validation or connection fails, or a later service throws.
pub data Failure : Type 0 where
  unknown_provider : String → Failure
  invalid_source coordinates_required connection_failed : Role → Failure
  provider_validation save_failed reload_failed refresh_failed warnings_failed : Failure

-- What `provider.getAnnualTimes(year)` comes to
pub data Answer : Type 0 where
  answered invalid unreachable : Answer

-- What `configService.update` comes to: it throws before it has replaced local.json, or it replaces the
-- file and its reload throws, or both succeed.
pub data Saving : Type 0 where
  rejected unloaded updated : Saving

-- The new configuration as far as the update looks at it, and the services' answers
pub record Env : Type 0 where
  pub sources : Role → Option Source
  pub has_sources : Bool
  pub has_coordinates : Bool
  -- ProviderFactory.getProviderClass, its schema and its metadata
  pub is_registered : String → Bool
  pub fits_schema : Source → Bool
  pub requires_coordinates : String → Bool
  pub answer : Source → Answer
  -- The JSON texts of `sources` and of `location` differ
  pub sources_changed : Bool
  pub location_changed : Bool
  pub saves : Saving
  -- forceRefresh, syncAudioAssets and _collectWarnings succeed
  pub refreshes : Bool
  pub synchronises : Bool
  pub collects : Bool

-- `none` where the source passes
unfoldable pub validate_source : Env → Role → Source → Option Failure
validate_source env role s =
    if env.is_registered s.type
    then (if env.fits_schema s
        then (if env.requires_coordinates s.type && not env.has_coordinates
            then some (coordinates_required role)
            else elim (env.answer s) [
              | answered ↦ none
              | invalid ↦ some provider_validation
              | unreachable ↦ some (connection_failed role)
            ])
        else some (invalid_source role))
    else some (unknown_provider s.type)

-- `role === "backup" && source.enabled === false`
abbrev pub is_skipped : Role → Source → Bool
is_skipped primary s = false
is_skipped backup s = elim s.enabled [ none ↦ false | some on ↦ not on ]

abbrev pub active_source : Env → Role → Option Source
active_source env role = elim (env.sources role) [
  | none ↦ none
  | some s ↦ if is_skipped role s then none else some s
]

unfoldable pub validate_role : Env → Role → Option Failure
unfolding validate_source
validate_role env role = elim (active_source env role) [
  | none ↦ none
  | some s ↦ validate_source env role s
]

-- `!newConfig.sources || !newConfig.sources.primary`
abbrev pub has_primary : Env → Bool
has_primary env = elim (env.sources primary) [ none ↦ false | some s ↦ env.has_sources ]

unfoldable pub validate_config_source : Env → Option Failure
unfolding validate_role
validate_config_source env =
    if has_primary env
    then elim (validate_role env primary) [ some f ↦ some f | none ↦ validate_role env backup ]
    else none

-- What the update does, in order; `progress` is a PROCESS_UPDATE broadcast.
pub data Step : Type 0 where
  progress : String → Step
  validated saved refreshed synchronised restarted : Step

pub data Verdict : Type 0 where
  -- with the warning that the audio files could not be synchronised, or not
  success : Bool → Verdict
  failure : Failure → Verdict

abbrev pub requires_refresh : Env → Bool
requires_refresh env = env.sources_changed || env.location_changed

-- Steps 5 to 7: a failed synchronisation is a warning, and initScheduler catches what fails in it.
abbrev pub finish : Env → List Step → Verdict × List Step
finish env done =
    let restarting =
      done
      ++ (progress "Generating Audio Assets..."
          ∷ ((if env.synchronises then synchronised ∷ [] else [])
              ++ (progress "Restarting Scheduler..." ∷ restarted ∷ []))) in
    if env.collects
    then (success (not env.synchronises), restarting ++ progress "Configuration Saved" ∷ [])
    else (failure warnings_failed, restarting)

-- Step 4
abbrev pub refresh_if_changed : Env → List Step → Verdict × List Step
refresh_if_changed env done =
    if requires_refresh env
    then (let refreshing = done ++ progress "Refreshing Prayer Data..." ∷ [] in
        if env.refreshes
        then finish env (refreshing ++ refreshed ∷ [])
        else (failure refresh_failed, refreshing))
    else finish env done

-- Step 3: `saved` stands for the new local.json.
unfoldable pub save : Env → List Step → Verdict × List Step
save env done =
    let saving = done ++ progress "Saving to Disk..." ∷ [] in
    elim env.saves [
      | rejected ↦ (failure save_failed, saving)
      | unloaded ↦ (failure reload_failed, saving ++ saved ∷ [])
      | updated ↦ refresh_if_changed env (saving ++ saved ∷ [])
    ]

-- From the unmasked configuration on
unfoldable pub execute_update : Env → Verdict × List Step
unfolding validate_config_source save
execute_update env =
    let validating = progress "Validating Configuration..." ∷ [] in
    if requires_refresh env
    then elim (validate_config_source env) [
      | some f ↦ (failure f, validating)
      | none ↦ save env (validating ++ validated ∷ [])
    ]
    else save env []
