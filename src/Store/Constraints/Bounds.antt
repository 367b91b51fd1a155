-- ===== src/Store/Constraints/Bounds.antt =====
-- The lead times that _validateConstraints of config/ConfigService.js lets through.
use azan_dashboard.Prelude.{String, ◌≡◌, refl, ap, sym, ◌∙◌, Option, none, some, arith, ℤ, ◌≤ℤ◌}
use mathlib.Core.Path.{subst}
use azan_dashboard.Result.{ok}
use azan_dashboard.Json.{Value, null, bool, num, str, arr, obj, Members, get, member, on_object}
use azan_dashboard.Json.Fields.{get-put, get-in_member, at_key}
use azan_dashboard.Registry.{Metadata, Strategies, get_strategy}
use azan_dashboard.Store.{Setup, output_of}
use azan_dashboard.Store.Outputs.{output_of-each_output}
use azan_dashboard.Store.Constraints.{
  min_lead, max_lead, allow_player, player_options, clamp, clamp_member, clamp_lead, constrain,
  constrain_value, validate_constraints,
}

abbrev pub IsWithin : ℤ → Type 0
IsWithin n = (min_lead ≤ℤ n) × (n ≤ℤ max_lead)

-- A member that is a whole number is within the range.
abbrev pub HasLead : Option Value → Type 0
HasLead (some (num n)) = IsWithin n
HasLead _ = Unit

clamp-IsWithin : (n : ℤ) → IsWithin (clamp n)
unfolding clamp
clamp-IsWithin n = ground arith

get-clamp_member :
    (n : ℤ) (output : Members)
    → get "leadTimeMs" output ≡ some (num n)
    → get "leadTimeMs" (clamp_member (some (num n)) output) ≡ some (num (clamp n))
unfolding clamp
get-clamp_member n output e =
    ground (arith, get-put "leadTimeMs" "leadTimeMs" (num (clamp n)) output)

clamp_member-HasLead :
    (v : Option Value) (output : Members)
    → get "leadTimeMs" output ≡ v
    → HasLead (get "leadTimeMs" (clamp_member v output))
clamp_member-HasLead none output e = subst HasLead (sym e) tt
clamp_member-HasLead (some (num n)) output e =
    subst HasLead (sym (get-clamp_member n output e)) (clamp-IsWithin n)
clamp_member-HasLead (some null) output e = subst HasLead (sym e) tt
clamp_member-HasLead (some (bool b)) output e = subst HasLead (sym e) tt
clamp_member-HasLead (some (str s)) output e = subst HasLead (sym e) tt
clamp_member-HasLead (some (arr m)) output e = subst HasLead (sym e) tt
clamp_member-HasLead (some (obj m)) output e = subst HasLead (sym e) tt

-- The check of the player leaves the lead time alone.
get-constrain :
    (id : String) (m : Metadata) (output : Members)
    → get "leadTimeMs" (constrain id m output) ≡ get "leadTimeMs" (clamp_lead output)
unfolding constrain
get-constrain id m output = ground (
  arith,
  get-in_member "params" "leadTimeMs" (allow_player (player_options m.params)) (clamp_lead output),
)

constrain-HasLead :
    (id : String) (m : Metadata) (v : Value)
    → HasLead (member "leadTimeMs" (some (on_object (constrain id m) v)))
constrain-HasLead id m (arr output) =
    subst HasLead (sym (get-constrain id m output))
      (clamp_member-HasLead (get "leadTimeMs" output) output refl)
constrain-HasLead id m (obj output) =
    subst HasLead (sym (get-constrain id m output))
      (clamp_member-HasLead (get "leadTimeMs" output) output refl)
constrain-HasLead id m null = tt
constrain-HasLead id m (bool b) = tt
constrain-HasLead id m (num n) = tt
constrain-HasLead id m (str s) = tt

constrained-HasLead :
    (strategies : Strategies) (id : String) (m : Metadata) (o : Option Value)
    → get_strategy id strategies ≡ some m
    → HasLead (member "leadTimeMs" (at_key (constrain_value strategies) id o))
constrained-HasLead strategies id m none e = tt
constrained-HasLead strategies id m (some v) e =
    subst (λ (w : Value). HasLead (member "leadTimeMs" (some w))) (ground arith)
      (constrain-HasLead id m v)

-- After the constraints a numeric lead time of an output whose strategy is known is within thirty
-- seconds of zero, whatever it was before.
pub validate_constraints-IsWithin :
    (st : Setup) (strategies : Strategies) (config c : Members) (id : String) (m : Metadata) (n : ℤ)
    → st.strategies ≡ some strategies
    → get_strategy id strategies ≡ some m
    → validate_constraints st config ≡ ok c
    → member "leadTimeMs" (output_of id c) ≡ some (num n)
    → IsWithin n
unfolding validate_constraints
validate_constraints-IsWithin st strategies config c id m n known found e lead =
    let same = output_of-each_output constrain_value st strategies config c id known e in
    subst HasLead (sym (ap (member "leadTimeMs") same) ∙ lead)
      (constrained-HasLead strategies id m (output_of id config) found)
