-- ===== src/Controllers/Tests.antt =====
-- An output with a secret, a folder with a hidden and a protected file, and a limit of one file per
-- page.
use azan_dashboard.Prelude.{String, true, false, arith, ◌≡◌, refl, none, some, List, [], ◌∷◌}
use azan_dashboard.Result.{ok, err}
use azan_dashboard.Dict.{lookup}
use azan_dashboard.Settings.{member as contains}
use azan_dashboard.Json.{bool, str, obj, Members, end, field, get, put}
use azan_dashboard.Registry.{Metadata, Strategies, Providers, get_strategy}
use azan_dashboard.Store.{output_of}
use azan_dashboard.Store.Saving.Sealed.{param_in}
use azan_dashboard.Assets.Cleanup.{is_audio}
use azan_dashboard.Assets.{rejected, Tools}
use azan_dashboard.Controllers.Masking.{mask_secrets, unmask_secrets}
use azan_dashboard.Controllers.Masking.Restored.{
  hidden, unmask_secrets-mask_secrets, mask_secrets-hidden,
}
use azan_dashboard.Controllers.Listing.{
  Site, AudioFile, flawless, custom, describe, filter_shown, paginate, get_audio_files,
}
use azan_dashboard.Controllers.Listing.Pages.{Visit, browse, browse-whole}
use azan_dashboard.Controllers.Files.{Paths, State, Steps, upload_file, delete_file}
use azan_dashboard.Controllers.Files.Coherence.{
  Server, Operation, listing, uploading, deleting, serve, IsCalm, IsCoherent, serve-IsCoherent,
}
use azan_dashboard.Controllers.Files.Guarded.{IsBounded, serve-IsBounded}

abbrev monkey : Metadata
monkey = record {
  id = "monkey";
  params = (record { key = "token"; sensitive = true; options = [] }) ∷ [];
}

abbrev strategies : Strategies
strategies = ("monkey", monkey) ∷ []

abbrev providers : Providers
providers = []

abbrev config : Members
config =
    field "automation"
      (obj (
        field "outputs"
          (obj (
            field "monkey" (obj (field "params" (obj (field "token" (str "secret") end)) end)) end))
          end))
      end

unmasked : Members
unfolding unmask_secrets mask_secrets
unmasked =
    elim (unmask_secrets strategies providers config (mask_secrets strategies providers config)) [
      | ok c ↦ c
      | err e ↦ end
    ]

unmask_secrets-mask_secrets_example :
    param_in "token" (output_of "monkey" unmasked) ≡ param_in "token" (output_of "monkey" config)
unfolding unmasked unmask_secrets mask_secrets get put
unmask_secrets-mask_secrets_example =
    unmask_secrets-mask_secrets strategies providers config unmasked "monkey" "token" refl

mask_secrets-hidden_example :
    param_in "token" (output_of "monkey" (mask_secrets strategies providers config))
    ≡ hidden (param_in "token" (output_of "monkey" config))
unfolding get_strategy lookup contains
mask_secrets-hidden_example =
    mask_secrets-hidden strategies providers config "monkey" "token" monkey refl refl

abbrev extname : String → String
extname file = ".mp3"

abbrev site : Site
site = record {
  custom_folder = record {
    audio = "a.mp3" ∷ "b.mp3" ∷ "c.mp3" ∷ [];
    sidecars =
        ("a.mp3", some (obj (field "protected" (bool true) end)))
        ∷ ("b.mp3", some (obj (field "hidden" (bool true) end)))
        ∷ [];
  };
  cache_folder = record { audio = []; sidecars = [] };
}

abbrev first_visit : Visit
first_visit = record { now = 100; site = site; scan = flawless; dropped = false }

-- By then the directories are empty.
abbrev second_visit : Visit
second_visit = record {
  now = 59000;
  site = record site { custom_folder = record { audio = []; sidecars = [] } };
  scan = flawless;
  dropped = false;
}

abbrev shown : List AudioFile
unfolding describe
shown =
    describe (λ f. true) custom site.custom_folder "a.mp3"
    ∷ describe (λ f. true) custom site.custom_folder "c.mp3"
    ∷ []

browse-whole_example : browse extname 1 0 (first_visit ∷ second_visit ∷ []) none ≡ ok shown
unfolding filter_shown describe lookup is_audio get paginate
browse-whole_example =
    browse-whole extname 1 first_visit (second_visit ∷ []) none shown 2 (omega arith) refl refl
      ((omega arith, refl), tt) refl (omega arith)

abbrev paths : Paths
paths = record {
  basename = λ s. s;
  is_absolute = λ s. false;
  target_path = λ s. s;
  audio_relative = λ s. s;
  meta_relative = λ s. s;
}

abbrev tools : Tools
tools = record {
  parse_file = λ file. rejected "broken";
  size = λ file. 1;
  extname = extname;
  validators = [];
  iso_now = "";
}

abbrev server : Server
server = record { paths = paths; tools = tools }

abbrev state : State
state = record { site = site; temp = []; cached = none }

abbrev all_steps : Steps
all_steps = record {
  makes = true;
  lists = true;
  copies = true;
  moves = true;
  drops = true;
  writes = true;
}

-- An upload is turned away, the protected file stays, another one goes.
abbrev operations : List Operation
operations =
    listing flawless 100 none none
    ∷ uploading all_steps (some (record { path = "t"; filename = "d.mp3" }))
    ∷ deleting true true true (some (str "a.mp3"))
    ∷ deleting true true true (some (str "c.mp3"))
    ∷ listing flawless 200 none none
    ∷ []

serve-IsCoherent_example : IsCoherent extname (serve server operations state)
unfolding serve upload_file delete_file IsCalm get_audio_files
serve-IsCoherent_example =
    serve-IsCoherent server operations state
      (refl, refl, (refl, tt, (refl, tt, (refl, tt, (refl, refl, tt))))) tt

serve-IsBounded_example : IsBounded (serve server operations state).site.custom_folder
serve-IsBounded_example =
    serve-IsBounded server operations state (tt, ((tt, refl), (tt, (tt, (tt, tt))))) (omega arith)
