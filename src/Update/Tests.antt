-- ===== src/Update/Tests.antt =====
-- An update that moves to another city while the provider is reachable only for the validation.
use azan_dashboard.Prelude.{refl, true, false, some}
use azan_dashboard.Update.{
  backup, answered, updated, Env, validate_source, validate_role, validate_config_source,
}
use azan_dashboard.Update.Outcomes.{
  IsUsable, validate_config_source-IsUsable, Outcome, execute_update-Outcome,
}
use azan_dashboard.Samples

abbrev moved : Env
moved = record {
  sources = λ role. some Samples.primary;
  has_sources = true;
  has_coordinates = true;
  is_registered = λ id. true;
  fits_schema = λ s. true;
  requires_coordinates = λ id. true;
  answer = λ s. answered;
  sources_changed = false;
  location_changed = true;
  saves = updated;
  refreshes = false;
  synchronises = true;
  collects = true;
}

validate_config_source-IsUsable_sample : IsUsable moved Samples.primary
unfolding validate_config_source validate_role validate_source
validate_config_source-IsUsable_sample =
    validate_config_source-IsUsable moved backup Samples.primary refl refl refl

execute_update-Outcome_example : Outcome moved
execute_update-Outcome_example = execute_update-Outcome moved
