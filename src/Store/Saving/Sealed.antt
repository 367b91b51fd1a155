-- ===== src/Store/Saving/Sealed.antt =====
-- Sensitive parameters of the outputs in the file that _saveLocal of config/ConfigService.js writes.
use azan_dashboard.Prelude.{String, ◌≡◌, ap, Option, some}
use azan_dashboard.Result.{Result, ok, err}
use azan_dashboard.Settings.{member as contains}
use azan_dashboard.Json.{Value, Members, member, in_member}
use azan_dashboard.Json.Fields.{get-in_member}
use azan_dashboard.Secrets.Processing.{IsSealed}
use azan_dashboard.Store.{output_of}
use azan_dashboard.Store.Saving.{holds, Disk}

-- `output?.params?.[name]`
abbrev pub param_in : String → Option Value → Option Value
param_in name output = member name (member "params" output)

-- The loop over the sources leaves the outputs alone.
pub output_of-sources :
    (f : Members → Members) (id : String) (config : Members)
    → output_of id (in_member "sources" f config) ≡ output_of id config
output_of-sources f id config =
    ap (λ (o : Option Value). member id (member "outputs" o))
      (get-in_member "sources" "automation" f config)

-- What a save comes to, for one sensitive parameter
abbrev Sealing : String → String → Disk × Result Members → Type 0
Sealing id name (d, ok copy) =
    (d.local ≡ some (holds copy)) × IsSealed (param_in name (output_of id copy))
Sealing id name (d, err e) = Unit
