-- ===== src/Update/Outcomes.antt =====
-- executeUpdate of services/system/configurationWorkflowService.js and validateConfigSource of
-- services/core/validationService.js: how an update can end.
use azan_dashboard.Prelude.{
  ◌≡◌, refl, Bool, true, false, not, ◌&&◌, none, some, arith, inl, inr, ◌⊎◌, Bool-cases,
  Option-cases, any,
}
use azan_dashboard.Prayer.{Source}
use azan_dashboard.Update.{
  Role, primary, backup, Failure, save_failed, reload_failed, refresh_failed, warnings_failed,
  answered, Saving, rejected, unloaded, updated, Env, validate_source, validate_role, active_source,
  has_primary, validate_config_source, Step, saved, restarted, success, failure, requires_refresh,
  save, execute_update,
}

-- A source that may be used: registered, as its schema says, with coordinates where they are needed,
-- and answering.
pub record IsUsable (env : Env) (s : Source) : Type 0 where
  pub registered : env.is_registered s.type ≡ true
  pub fits : env.fits_schema s ≡ true
  pub located : env.requires_coordinates s.type ≡ true → env.has_coordinates ≡ true
  pub answers : env.answer s ≡ answered

validate_source-IsUsable :
    (env : Env) (role : Role) (s : Source) → validate_source env role s ≡ none → IsUsable env s
unfolding validate_source
validate_source-IsUsable env role s e = record {
  registered = ground arith;
  fits = ground arith;
  located = λ needed. ground arith;
  answers = ground arith;
}

-- If the validation passes and there is a primary source, the primary source and a backup that is not
-- disabled are usable.
pub validate_config_source-IsUsable :
    (env : Env) (role : Role) (s : Source)
    → validate_config_source env ≡ none
    → has_primary env ≡ true
    → active_source env role ≡ some s
    → IsUsable env s
unfolding validate_config_source validate_role
validate_config_source-IsUsable env primary s e there active =
    validate_source-IsUsable env primary s (ground arith)
validate_config_source-IsUsable env backup s e there active =
    validate_source-IsUsable env backup s (ground arith)

abbrev pub is_saved : Step → Bool
is_saved saved = true
is_saved _ = false

abbrev pub is_restarted : Step → Bool
is_restarted restarted = true
is_restarted _ = false

abbrev pub does : (Step → Bool) → Env → Bool
does p env = any p (execute_update env).1

-- What was saved did pass the validation, or changes neither sources nor location.
abbrev pub IsChecked : Env → Type 0
IsChecked env = (requires_refresh env ≡ false) ⊎ (validate_config_source env ≡ none)

-- The ways in which an update ends
pub data Outcome (env : Env) : Type 0 where
  in_effect :
      (warned : Bool)
      → (execute_update env).0 ≡ success warned
      → IsChecked env
      → does is_saved env ≡ true
      → does is_restarted env ≡ true
      → Outcome env
  refused :
      (f : Failure)
      → (execute_update env).0 ≡ failure f
      → does is_saved env ≡ false
      → does is_restarted env ≡ false
      → Outcome env
  unread :
      (execute_update env).0 ≡ failure reload_failed
      → env.saves ≡ unloaded
      → IsChecked env
      → does is_saved env ≡ true
      → does is_restarted env ≡ false
      → Outcome env
  half_done :
      (execute_update env).0 ≡ failure refresh_failed
      → requires_refresh env ≡ true
      → validate_config_source env ≡ none
      → does is_saved env ≡ true
      → does is_restarted env ≡ false
      → Outcome env
  unreported :
      (execute_update env).0 ≡ failure warnings_failed
      → env.collects ≡ false
      → IsChecked env
      → does is_saved env ≡ true
      → does is_restarted env ≡ true
      → Outcome env

finished-Outcome :
    (env : Env)
    → IsChecked env
    → env.saves ≡ updated
    → (requires_refresh env && not env.refreshes) ≡ false
    → Outcome env
unfolding execute_update save
finished-Outcome env (inl same) written on = elim (Bool-cases env.collects) [
  | inl told ↦
      in_effect (not env.synchronises) (ground arith) (inl same) (ground arith) (ground arith)
  | inr lost ↦ unreported (ground arith) lost (inl same) (ground arith) (ground arith)
]
finished-Outcome env (inr valid) written on = elim (Bool-cases env.collects) [
  | inl told ↦
      in_effect (not env.synchronises) (ground arith) (inr valid) (ground arith) (ground arith)
  | inr lost ↦ unreported (ground arith) lost (inr valid) (ground arith) (ground arith)
]

Saving-cases : (w : Saving) → (w ≡ rejected) ⊎ ((w ≡ unloaded) ⊎ (w ≡ updated))
Saving-cases rejected = inl refl
Saving-cases unloaded = inr (inl refl)
Saving-cases updated = inr (inr refl)

-- An update is saved and the scheduler restarted, or it is refused and neither happens, or, when the
-- reload of what was saved or the refresh of the prayer times fails, the caller is told of a failure
-- although it is saved, and the scheduler goes on with the old jobs, or, when only the collecting of
-- the warnings fails, the caller is told of a failure although it is saved and the scheduler
-- restarted. Nothing is saved whose changed sources or location did not pass the validation.
pub execute_update-Outcome : (env : Env) → Outcome env
unfolding execute_update save
execute_update-Outcome env = elim (Bool-cases (requires_refresh env)) [
  | inr same ↦ elim (Saving-cases env.saves) [
    | inl full ↦ refused save_failed (ground arith) (ground arith) (ground arith)
    | inr (inl broken) ↦ unread (ground arith) broken (inl same) (ground arith) (ground arith)
    | inr (inr written) ↦ finished-Outcome env (inl same) written (ground arith)
  ]
  | inl changed ↦ elim (Option-cases (validate_config_source env)) [
    | inr (f, bad) ↦ refused f (ground arith) (ground arith) (ground arith)
    | inl good ↦ elim (Saving-cases env.saves) [
      | inl full ↦ refused save_failed (ground arith) (ground arith) (ground arith)
      | inr (inl broken) ↦ unread (ground arith) broken (inr good) (ground arith) (ground arith)
      | inr (inr written) ↦ elim (Bool-cases env.refreshes) [
        | inr dead ↦ half_done (ground arith) changed good (ground arith) (ground arith)
        | inl fetched ↦ finished-Outcome env (inr good) written (ground arith)
      ]
    ]
  ]
]
