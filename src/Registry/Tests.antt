-- ===== src/Registry/Tests.antt =====
-- Two outputs, the second registered twice.
use azan_dashboard.Prelude.{true, ◌≡◌, refl, some, [], ◌∷◌}
use azan_dashboard.Dict.{lookup, insert, HasDistinctKeys}
use azan_dashboard.Settings.{member}
use azan_dashboard.Registry.{
  Metadata, Strategies, register, register_all, get_strategy, get_secret_requirement_keys,
}
use azan_dashboard.Registry.Secret.{
  is_required, get_secret_requirement_keys-asked, register_all-latest,
}

abbrev local_output : Metadata
local_output = record { id = "local"; params = [] }

abbrev plain : Metadata
plain = record { id = "monkey"; params = [] }

abbrev monkey : Metadata
monkey = record {
  id = "monkey";
  params = (record { key = "token"; sensitive = true; options = [] }) ∷ [];
}

abbrev registered : Strategies
registered = ("local", local_output) ∷ ("monkey", monkey) ∷ []

get_secret_requirement_keys-asked_sample :
    is_required "monkey" "token" (get_secret_requirement_keys registered) ≡ true
unfolding lookup get_strategy member
get_secret_requirement_keys-asked_sample =
    get_secret_requirement_keys-asked registered "monkey" "token" (refl, (refl, tt))

register_all-latest_sample :
    (get_strategy "monkey" registered ≡ some monkey) × HasDistinctKeys registered
unfolding register_all register insert get_strategy lookup
register_all-latest_sample =
    register_all-latest (local_output ∷ plain ∷ monkey ∷ []) [] registered "monkey" tt refl
