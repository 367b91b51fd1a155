-- ===== src/Store/Outputs.antt =====
-- The loops over the outputs of a configuration in config/ConfigService.js.
use azan_dashboard.Prelude.{String, ◌≡◌, ap, sym, ◌∙◌, Option, some, arith, Bool-cases, inl, inr}
use azan_dashboard.Result.{ok}
use azan_dashboard.Json.{Value, Members, get, member, in_member, map_members, truthy_option}
use azan_dashboard.Json.Fields.{
  get-in_member, at_key, member-on_option, member-map_members, member-falsy,
}
use azan_dashboard.Registry.{Strategies}
use azan_dashboard.Store.{Setup, wired, each_output, output_of}

-- After a loop over the outputs, each of them is what its round makes of it.
pub output_of-each_output :
    (f : Strategies → String → Value → Value) (st : Setup) (strategies : Strategies)
    (config c : Members) (id : String)
    → st.strategies ≡ some strategies
    → each_output f st config ≡ ok c
    → output_of id c ≡ at_key (f strategies) id (output_of id config)
unfolding each_output wired
output_of-each_output f st strategies config c id known e =
    let automation = get "automation" config in
    let inner = in_member "outputs" (map_members (f strategies)) in
    elim (Bool-cases (truthy_option (member "outputs" automation))) [
      | inr falsy ↦
          let same : config ≡ c = ground arith in
          let gone = member-falsy id (member "outputs" automation) falsy in
          ap (output_of id) (sym same) ∙ gone ∙ ap (at_key (f strategies) id) (sym gone)
      | inl filled ↦
          let same : in_member "automation" inner config ≡ c = ground arith in
          ap (output_of id) (sym same)
          ∙ ap (λ (o : Option Value). member id (member "outputs" o))
              (get-in_member "automation" "automation" inner config)
          ∙ ap (member id) (member-on_option "outputs" (map_members (f strategies)) automation)
          ∙ member-map_members (f strategies) id (member "outputs" automation)
    ]
