-- ===== src/Store/Constraints.antt =====
-- _validateConstraints of config/ConfigService.js: values of the outputs that are forced into range.
pub mod Bounds
use azan_dashboard.Prelude.{
  String, Bool, true, false, ◌&&◌, ◌||◌, not, Option, none, some, List, [], ◌∷◌, str_eq,
  if◌then◌else◌, ℤ, pos, negsuc, ltb_ℤ,
}
use azan_dashboard.Result.{Result, ok, err, ◌>>=◌}
use azan_dashboard.Settings.{member as contains}
use azan_dashboard.Json.{
  Value, num, str, arr, obj, Members, end, field, get, put, truthy_option, member, on_object,
  in_member,
}
use azan_dashboard.Registry.{Param, Metadata, Strategies, get_strategy}
use azan_dashboard.Store.{Setup, each_output}

abbrev pub min_lead : ℤ
min_lead = negsuc 29999

abbrev pub max_lead : ℤ
max_lead = pos 30000

-- `Math.max(min, Math.min(lead, max))`, where the lead time is out of range
unfoldable pub clamp : ℤ → ℤ
clamp lead =
    if ltb_ℤ lead min_lead then min_lead else if ltb_ℤ max_lead lead then max_lead else lead

abbrev pub clamp_member : Option Value → Members → Members
clamp_member (some (num lead)) output =
    if ltb_ℤ lead min_lead || ltb_ℤ max_lead lead
    then put "leadTimeMs" (num (clamp lead)) output
    else output
clamp_member _ output = output

abbrev pub clamp_lead : Members → Members
clamp_lead output = clamp_member (get "leadTimeMs" output) output

-- `metadata.params.find((p) => p.key === "audioPlayer")?.options || []`
unfoldable pub player_options : List Param → List String
player_options [] = []
player_options (p ∷ params) =
    if str_eq p.key "audioPlayer" then p.options else player_options params

abbrev pub is_option : List String → Option Value → Bool
is_option allowed (some (str s)) = contains s allowed
is_option allowed _ = false

-- The player of the local output, in `params`
abbrev pub allow_player : List String → Members → Members
allow_player allowed params =
    if truthy_option (get "audioPlayer" params)
      && not (is_option allowed (get "audioPlayer" params))
    then put "audioPlayer" (str "mpg123") params
    else params

abbrev pub check_player : Metadata → Members → Members
check_player m output = in_member "params" (allow_player (player_options m.params)) output

-- The members of one output, under its strategy
unfoldable pub constrain : String → Metadata → Members → Members
unfolding clamp player_options contains in_member
constrain id m output =
    let clamped = clamp_lead output in if str_eq id "local" then check_player m clamped else clamped

-- One entry of the outputs: what throws in the loop's body leaves the rest of the entry alone.
abbrev pub constrain_value : Strategies → String → Value → Value
constrain_value strategies id v = elim (get_strategy id strategies) [
  | none ↦ v
  | some m ↦ on_object (constrain id m) v
]

unfoldable pub validate_constraints : Setup → Members → Result Members
unfolding constrain get_strategy each_output
validate_constraints st config = each_output constrain_value st config
